-- ===== src/Logscan/Offset/Resume.antt =====
-- Reads that go on from the offset that the read before returned.
use noderax_agent.Prelude.{
  err, Option, none, some, ℕ, zero, suc, ◌+◌, ◌≤◌, ◌<◌, ◌≡◌, refl, sym, ap, ◌∙◌, inl, inr, Bool,
  true, false, List, [], ◌∷◌, ◌++◌, map, arith, ltb, if◌then◌else◌, ltb→lt, Bool-cases, length,
  take, drop, take-append-drop, length-take, length-drop, drop-drop, drop-append, All, All-drop,
  pos, Text, Outcome, ok,
}
use noderax_agent.Logscan.Types.{Entry, ScanError}
use noderax_agent.Logscan.Lines.{Bytes, FileView, read_bytes, split_after, split_after-read_bytes}
use noderax_agent.Logscan.Offset.{chunk_entry, read_file_from_offset, Read}
use noderax_agent.Logscan.Offset.Accept.{total_size}
use noderax_agent.Logscan.Offset.Prefix.{PrefixFits, read_file_from_offset-longest}

append-read_bytes : (s : Bytes) → (read_bytes s).0 ++ (read_bytes s).1 ≡ s
unfolding read_bytes
append-read_bytes [] = refl
append-read_bytes (c ∷ s) = grind (arith, append-read_bytes s)

drop_chunk :
    (t c : ℕ) (s : Bytes)
    → drop (length (read_bytes (c ∷ s)).0 + t) (c ∷ s) ≡ drop t (read_bytes (c ∷ s)).1
drop_chunk t c s =
    let ch = (read_bytes (c ∷ s)).0 in
    let left = (read_bytes (c ∷ s)).1 in
    ap (drop (length ch + t)) (sym (append-read_bytes (c ∷ s)))
    ∙ sym (drop-drop t (length ch) (ch ++ left))
    ∙ ap (drop t) (drop-append ch left)

-- Behind the first `k` chunks stand the other chunks.
split_after-drop :
    (k : ℕ) (s : Bytes)
    → split_after (drop (total_size (take k (split_after s))) s) ≡ drop k (split_after s)
unfolding total_size
split_after-drop zero s = refl
split_after-drop (suc k) [] = unfold split_after in refl
split_after-drop (suc k) (c ∷ s) =
    rw (split_after-read_bytes c s)
      (ap split_after (drop_chunk _ c s) ∙ split_after-drop k (read_bytes (c ∷ s)).1)

split_after-next :
    (k offset : ℕ) (content : Bytes)
    → let ls = split_after (drop offset content) in
      split_after (drop (offset + total_size (take k ls)) content) ≡ drop k ls
split_after-next k offset content =
    ap split_after (sym (drop-drop _ offset content)) ∙ split_after-drop k (drop offset content)

module _ {ℓ} {A : Type ℓ} where
  length-take_self : (k : ℕ) (xs : List A) → take (length (take k xs)) xs ≡ take k xs
  length-take_self zero xs = refl
  length-take_self (suc k) [] = refl
  length-take_self (suc k) (x ∷ xs) = ap (◌∷◌ x) (length-take_self k xs)

  append-take-drop : (j k : ℕ) (xs : List A) → take j xs ++ take k (drop j xs) ≡ take (j + k) xs
  append-take-drop zero k xs = let e : 0 + k ≡ k = omega arith in rw e
  append-take-drop (suc j) zero [] = let e : suc j + 0 ≡ suc j = omega arith in rw e
  append-take-drop (suc j) (suc k) [] =
      let e : suc j + suc k ≡ suc (j + suc k) = omega arith in rw e
  append-take-drop (suc j) k (x ∷ xs) =
      let e : suc j + k ≡ suc (j + k) = omega arith in rw e (ap (◌∷◌ x) (append-take-drop j k xs))

length-map {ℓ κ} :
    {A : Type ℓ} {B : Type κ} (f : A → B) (xs : List A) → length (map f xs) ≡ length xs
length-map f [] = refl
length-map f (x ∷ xs) = ap suc (length-map f xs)

ok-injective {ℓ κ} :
    {E : Type ℓ} {A : Type κ} {a b : A} → ◌≡◌ {A = Outcome E A} (ok a) (ok b) → a ≡ b
ok-injective h = cc

map-append-map {ℓ κ} :
    {A : Type ℓ} {B : Type κ} (f : A → B) (xs ys : List A) → map f xs ++ map f ys ≡ map f (xs ++ ys)
map-append-map f [] ys = refl
map-append-map f (x ∷ xs) ys = ap (◌∷◌ (f x)) (map-append-map f xs ys)

total_size-append : (xs ys : List Bytes) → total_size (xs ++ ys) ≡ total_size xs + total_size ys
unfolding total_size
total_size-append [] ys = omega arith
total_size-append (x ∷ xs) ys = omega (arith, total_size-append xs ys)

module _ (file : FileView) (done : ℕ → Bool) (ml mb : ℕ) (identifier : Text)
    (opens : file.opens ≡ true) (reads : file.read_fails ≡ false)
    (run : (i : ℕ) → done i ≡ false) where
  abbrev read_at : ℕ → Outcome ScanError Read
  read_at offset = read_file_from_offset file done (pos offset) ml mb identifier

  abbrev lines_at : ℕ → List Bytes
  lines_at offset = split_after (drop offset file.content)

  -- A read in terms of how many entries it returned.
  read_at-take :
      (offset : ℕ) (es : List Entry) (n next : ℕ) (t : Bool)
      → read_at offset ≡ ok (es, n, t, next)
      → (es ≡ map (chunk_entry identifier) (take (length es) (lines_at offset)))
        × (next ≡ offset + total_size (take (length es) (lines_at offset)))
  read_at-take offset es n next t h =
      let (k, e, _, _) =
        read_file_from_offset-longest file done offset ml mb identifier opens reads run in
      let same : ◌≡◌ {A = Read} (es, n, t, next) _ = ok-injective (sym h ∙ e) in
      let es_eq = ap (λ (r : Read). r.0) same in
      let next_eq = ap (λ (r : Read). r.3) same in
      let count : take (length es) (lines_at offset) ≡ take k (lines_at offset) =
        ap (λ l. take (length l) (lines_at offset)) es_eq
        ∙ ap (λ l. take l (lines_at offset)) (length-map (chunk_entry identifier) _)
        ∙ length-take_self k (lines_at offset) in
      (
        es_eq ∙ ap (map (chunk_entry identifier)) (sym count),
        next_eq ∙ ap (λ l. offset + total_size l) (sym count),
      )

  -- Where the first line is within the byte limit a read returns it, so that the offset moves on.
  read_at_progress :
      (offset : ℕ) (ch : Bytes) (chs : List Bytes) (es : List Entry) (n next : ℕ) (t : Bool)
      → 1 ≤ ml
      → lines_at offset ≡ ch ∷ chs
      → length ch ≤ mb
      → read_at offset ≡ ok (es, n, t, next)
      → 1 ≤ length es
  read_at_progress offset ch chs es n next t some_lines here small h =
      let (k, e, _, best) =
        read_file_from_offset-longest file done offset ml mb identifier opens reads run in
      let same : ◌≡◌ {A = Read} (es, n, t, next) _ = ok-injective (sym h ∙ e) in
      let es_eq = ap (λ (r : Read). length r.0) same in
      let fits : PrefixFits ml mb (take 1 (lines_at offset)) =
        rw here (record { in_lines = some_lines; in_bytes = unfold total_size in omega arith }) in
      let one : length (take 1 (lines_at offset)) ≡ 1 = rw here in
      omega (
        arith,
        es_eq,
        length-map (chunk_entry identifier) (take k (lines_at offset)),
        best 1 fits,
        one,
      )

-- Two reads, the second at the offset that the first returned, are one read of as many lines: their
-- entries together are the first lines behind the first offset, with none left out and none twice,
-- and the second offset stands right behind those lines.
pub read_file_from_offset_resume :
    (file : FileView) (done : ℕ → Bool) (ml mb : ℕ) (identifier : Text) (offset : ℕ)
    (es es' : List Entry) (n n' next next' : ℕ) (t t' : Bool)
    → file.opens ≡ true
    → file.read_fails ≡ false
    → ((i : ℕ) → done i ≡ false)
    → read_file_from_offset file done (pos offset) ml mb identifier ≡ ok (es, n, t, next)
    → read_file_from_offset file done (pos next) ml mb identifier ≡ ok (es', n', t', next')
    → let lines = take (length es + length es') (split_after (drop offset file.content)) in
      (es ++ es' ≡ map (chunk_entry identifier) lines) × (next' ≡ offset + total_size lines)
read_file_from_offset_resume file done ml mb id offset es es' n n' next next' t t' opens reads run h
      h' =
    let ls = split_after (drop offset file.content) in
    let (es_eq, next_eq) = read_at-take file done ml mb id opens reads run offset es n next t h in
    let (es'_eq, next'_eq) =
      read_at-take file done ml mb id opens reads run next es' n' next' t' h' in
    let t1 = take (length es) ls in
    let ahead : split_after (drop next file.content) ≡ drop (length es) ls =
      ap (λ k. split_after (drop k file.content)) next_eq
      ∙ split_after-next (length es) offset file.content in
    let t2 = take (length es') (drop (length es) ls) in
    let both : t1 ++ t2 ≡ take (length es + length es') ls =
      append-take-drop (length es) (length es') ls in
    let f = chunk_entry id in
    let left : es ++ es' ≡ map f t1 ++ map f t2 = cc (es_eq, rw (ahead) at es'_eq) in
    let sum : offset + total_size t1 + total_size t2 ≡ offset + total_size (t1 ++ t2) =
      omega (arith, total_size-append t1 t2) in
    let right : next' ≡ offset + total_size t1 + total_size t2 =
      cc (next_eq, rw ahead at next'_eq) in
    (
      left ∙ map-append-map f t1 t2 ∙ ap (map f) both,
      right ∙ sum ∙ ap (λ l. offset + total_size l) both,
    )

take_all {ℓ} : {A : Type ℓ} (k : ℕ) (xs : List A) → length xs ≤ length (take k xs) → take k xs ≡ xs
take_all zero [] h = refl
take_all zero (x ∷ xs) h = absurd (omega arith)
take_all (suc k) [] h = refl
take_all (suc k) (x ∷ xs) h = ap (◌∷◌ x) (take_all k xs (omega arith))

first_fits :
    (ml mb : ℕ) (ls : List Bytes)
    → 1 ≤ ml
    → All (λ l. length l ≤ mb) ls
    → PrefixFits ml mb (take 1 ls)
unfolding total_size
first_fits ml mb [] h small = record { in_lines = omega arith; in_bytes = omega arith }
first_fits ml mb (l ∷ ls) h small = record {
  in_lines = omega arith;
  in_bytes = omega (arith, small.0);
}

module _ (file : FileView) (ml mb : ℕ) (identifier : Text) where
  -- The entries of a read and, if it is marked, those of the reads behind it.
  abbrev joined :
      List Entry → Option (Outcome ScanError (List Entry)) → Option (Outcome ScanError (List Entry))
  joined es none = none
  joined es (some (err e)) = some (err e)
  joined es (some (ok es')) = some (ok (es ++ es'))

  -- A client that reads on from the returned offset as long as the result is marked truncated; none
  -- if it still has to read behind its last read.
  unfoldable pub drain : ℕ → ℕ → Option (Outcome ScanError (List Entry))
  drain zero offset = none
  drain (suc fuel) offset =
      elim (read_file_from_offset file (λ i. false) (pos offset) ml mb identifier) [
        | err e ↦ some (err e)
        | ok (es, n, more, next) ↦
            let rest = joined es (drain fuel next) in if more then rest else some (ok es)
      ]

  -- Where the file can be read and no line is longer than the byte limit, a client that reads on
  -- from the returned offset as long as the result is marked as truncated, and stops where it is
  -- not, stops with all lines behind its offset, each once and in order, after at most one read
  -- more than there are lines. The limit on lines is at least one.
  pub drain_complete :
      (fuel offset : ℕ)
      → file.opens ≡ true
      → file.read_fails ≡ false
      → 1 ≤ ml
      → All (λ l. length l ≤ mb) (split_after (drop offset file.content))
      → length (split_after (drop offset file.content)) < fuel
      → drain fuel offset
        ≡ some (ok (map (chunk_entry identifier) (split_after (drop offset file.content))))
  unfolding drain
  drain_complete zero offset opens reads room small h = absurd (omega arith)
  drain_complete (suc fuel) offset opens reads room small h =
      let ls = split_after (drop offset file.content) in
      let (k, e, fits, best) =
        read_file_from_offset-longest file (λ i. false) offset ml mb identifier opens reads
          (λ i. refl) in
      rw (drain, e)
        (elim (Bool-cases (ltb (length (take k ls)) (length ls))) [
          | inl more ↦ rw more (
              rw
                (drain_complete fuel (offset + total_size (take k ls)) opens reads room
                  (rw (split_after-next k offset file.content) (All-drop _ k ls small))
                  (rw (split_after-next k offset file.content) (
                    omega (
                      arith,
                      length-drop k ls,
                      length-take k ls,
                      best 1 (first_fits ml mb ls room small),
                      length-take 1 ls,
                      ltb→lt _ _ more,
                    ))))
                (ap (λ l. some (ok l))
                  (map-append-map (chunk_entry identifier) (take k ls) _
                    ∙ ap (map (chunk_entry identifier)) (
                        ap (◌++◌ (take k ls)) (split_after-next k offset file.content)
                        ∙ take-append-drop k ls))))
          | inr over ↦
              rw over (
                ap (λ l. some (ok (map (chunk_entry identifier) l))) (take_all k ls (ground arith)))
        ])
