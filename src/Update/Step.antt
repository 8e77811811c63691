-- ===== src/Update/Step.antt =====
-- The steps of an update: each may fail, and changes the host it runs on.
use noderax_agent.Prelude.{ℕ, ◌≡◌, refl, Option, List, Text, Outcome, ok, err}
use noderax_agent.Update.Release.{ReleaseError}

pub data UpdateError : Type 0 where
  config_failed : Text → UpdateError
  identity_missing : UpdateError
  client_failed : Text → UpdateError
  release_failed : ReleaseError → UpdateError
  directory_failed temp_failed download_request_failed download_failed : Text → UpdateError
  download_status : ℕ → UpdateError
  download_write_failed download_chmod_failed : Text → UpdateError
  open_failed hash_failed : Text → UpdateError
  checksum_mismatch : Text → Text → UpdateError
  stage_failed chmod_failed replace_failed symlink_failed : Text → UpdateError
  refresh_failed : ℕ → Text → UpdateError
  restart_failed : Text → UpdateError
  context_done : Text → UpdateError
  not_active : Text → UpdateError

pub data Status : Type 0 where
  downloading verifying installing restarting waiting_for_reconnect failed : Status

pub record Report : Type 0 where
  pub status : Status
  pub percent : ℕ
  pub reason : Option UpdateError

-- The host as an update changes it: the content of the managed binary and of the staged one, that of
-- the temporary download while it is there, the reports of progress and the last progress in them, the
-- numbers of the refreshed helpers, and how often the service was restarted.
pub record Machine : Type 0 where
  pub binary : Text
  pub staged : Option Text
  pub download : Option Text
  pub reports : List Report
  pub progress : ℕ
  pub refreshed : List ℕ
  pub restarts : ℕ

abbrev pub Step {ℓ} : Type ℓ → Type ℓ
Step A = Machine → Outcome UpdateError A × Machine

infixl 5 ◌>>=◌ ◌>>◌
abbrev bind_result {ℓ κ} :
    {A : Type ℓ} {B : Type κ}
    → (A → Step B)
    → Outcome UpdateError A × Machine
    → Outcome UpdateError B × Machine
bind_result f (ok a, m) = f a m
bind_result f (err e, m) = (err e, m)

abbrev pub ◌>>=◌ {ℓ κ} : {A : Type ℓ} {B : Type κ} → Step A → (A → Step B) → Step B
s >>= f = λ m. bind_result f (s m)

abbrev pub ◌>>◌ {ℓ} : {B : Type ℓ} → Step (Unit {0}) → Step B → Step B
s >> k = s >>= λ _. k

abbrev pub return {ℓ} : {A : Type ℓ} → A → Step A
return a = λ m. (ok a, m)

abbrev pub throw {ℓ} : {A : Type ℓ} → UpdateError → Step A
throw e = λ m. (err e, m)

abbrev pub change : (Machine → Machine) → Step (Unit {0})
change f = λ m. (ok tt, f m)

-- What another part returns, its errors wrapped.
abbrev pub lift {ℓ κ} : {E : Type ℓ} {A : Type κ} → (E → UpdateError) → Outcome E A → Step A
lift wrap (ok a) = return a
lift wrap (err e) = throw (wrap e)

-- What holds behind a step: `E` of an error and the host it leaves, or `Q` of a result and the host.
abbrev pub Holds {ℓ} :
    {A : Type ℓ}
    → (UpdateError → Machine → Type 0)
    → (A → Machine → Type 0)
    → Outcome UpdateError A × Machine
    → Type 0
Holds E Q (ok a, m) = Q a m
Holds E Q (err e, m) = E e m

module _ {ℓ κ} {A : Type ℓ} {B : Type κ} (E : UpdateError → Machine → Type 0) where
  pub Holds-bind :
      (Q : A → Machine → Type 0) (R : B → Machine → Type 0) (s : Step A) (f : A → Step B)
      (m : Machine)
      → Holds E Q (s m)
      → ((a : A) (m' : Machine) → Q a m' → Holds E R (f a m'))
      → Holds E R ((s >>= f) m)
  Holds-bind Q R s f m h k = by_result (s m) h
    where
      by_result : (r : Outcome UpdateError A × Machine) → Holds E Q r → Holds E R (bind_result f r)
      by_result (ok a, m') h = k a m' h
      by_result (err e, m') h = h

pub Holds-lift :
    {F A : Type 0} (P : Machine → Type 0) (wrap : F → UpdateError) (o : Outcome F A) (m : Machine)
    → P m
    → Holds (λ _ m'. P m') (λ a m'. P m' × (o ≡ ok a)) (lift wrap o m)
Holds-lift P wrap (ok a) m p = (p, refl)
Holds-lift P wrap (err e) m p = p

module _ {ℓ} {B : Type ℓ} (E : UpdateError → Machine → Type 0) (R : B → Machine → Type 0) where
  -- A step that returns what another part does leaves the host as it is.
  pub Holds-lift-bind :
      {F A : Type 0} (wrap : F → UpdateError) (o : Outcome F A) (f : A → Step B) (m : Machine)
      → ((e : UpdateError) → E e m)
      → ((a : A) → o ≡ ok a → Holds E R (f a m))
      → Holds E R ((lift wrap o >>= f) m)
  Holds-lift-bind wrap (ok a) f m fails k = k a refl
  Holds-lift-bind wrap (err e) f m fails k = fails (wrap e)

  pub Holds-map :
      (E' : UpdateError → Machine → Type 0) (R' : B → Machine → Type 0)
      (r : Outcome UpdateError B × Machine)
      → ((e : UpdateError) (m : Machine) → E e m → E' e m)
      → ((b : B) (m : Machine) → R b m → R' b m)
      → Holds E R r
      → Holds E' R' r
  Holds-map E' R' (ok b, m) f g h = g b m h
  Holds-map E' R' (err e, m) f g h = f e m h

pub Holds-lift_keeps :
    {F A : Type 0} (P : Machine → Type 0) (wrap : F → UpdateError) (o : Outcome F A) (m : Machine)
    → P m
    → Holds (λ _ m'. P m') (λ _ m'. P m') (lift wrap o m)
Holds-lift_keeps P wrap (ok a) m p = p
Holds-lift_keeps P wrap (err e) m p = p
