-- ===== src/Agent/Waiting.antt =====
-- `waitForEnrollmentApproval`: exactly when the wait ends with an identity.
use noderax_agent.Agent.Identity.{Identity}
