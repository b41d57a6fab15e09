-- ===== src/Session/Retransmit/Window.antt =====
-- crates/hft-session/src/retransmit.rs: the retained frames are a window of consecutive sequences.
use hft_engine_rs.Prelude.{
  ℕ, zero, suc, ◌+◌, ◌-◌, ◌≤◌, ◌<◌, ◌≡◌, refl, ap, sym, subst, dec_lt, ◌∙◌, replicate, List, [],
  ◌∷◌, ◌++◌, ok, err, arith, map, Bool, Bool-cases, inl, inr, length, take, drop, keep_if, min, leb,
  length-append,
}
use hft_engine_rs.Prelude.Words.{u64_limit}
use hft_engine_rs.Session.Retransmit.{
  RetainError, RetainedFrame, RetransmitBuffer, store, slice, retain, drop_confirmed,
  confirm_through, since, remaining_capacity, max_frame,
}

-- The frames carry the sequences from `first` on, up to `next`, which is excluded.
abbrev pub Ascends : ℕ → List RetainedFrame → ℕ → Type 0
Ascends first [] next = first ≡ next
Ascends first (f ∷ fs) next = (f.sequence ≡ first) × Ascends (first + 1) fs next

pub record IsWindow (first : ℕ) (b : RetransmitBuffer) : Type 0 where
  pub ascends : Ascends first b.entries b.next_sequence
  pub within : length b.entries ≤ b.capacity

Ascends-append :
    (first : ℕ) (fs : List RetainedFrame) (next : ℕ) (f : RetainedFrame)
    → Ascends first fs next
    → f.sequence ≡ next
    → Ascends first (fs ++ f ∷ []) (next + 1)
Ascends-append first [] next f a e = (omega arith, omega arith)
Ascends-append first (g ∷ fs) next f a e = (a.0, Ascends-append (first + 1) fs next f a.1 e)

-- `retain` keeps the window, whether it takes the frame or refuses it.
pub retain-IsWindow :
    (first : ℕ) (b : RetransmitBuffer) (s : ℕ) (bytes : List ℕ)
    → IsWindow first b
    → IsWindow first (retain s bytes b).1
unfolding retain
retain-IsWindow first b s bytes w = ground (
  arith,
  λ (e : s ≡ b.next_sequence).
      Ascends-append first b.entries b.next_sequence (store s bytes) w.ascends e,
  length-append b.entries (store s bytes ∷ []),
)

take-append_self {ℓ} : {A : Type ℓ} (xs ys : List A) → take (length xs) (xs ++ ys) ≡ xs
take-append_self [] ys = refl
take-append_self (x ∷ xs) ys = ap (◌∷◌ x) (take-append_self xs ys)

keep_if-append {ℓ} :
    {A : Type ℓ} (p : A → Bool) (xs ys : List A)
    → keep_if p (xs ++ ys) ≡ keep_if p xs ++ keep_if p ys
keep_if-append p [] ys = refl
keep_if-append p (x ∷ xs) ys = elim (Bool-cases (p x)) [
  | inl e ↦ rw e (ap (◌∷◌ x) (keep_if-append p xs ys))
  | inr e ↦ rw e (keep_if-append p xs ys)
]

drop-cons {ℓ} :
    {A : Type ℓ} (n : ℕ) (x : A) (xs : List A) → 0 < n → drop n (x ∷ xs) ≡ drop (n - 1) xs
drop-cons zero x xs h = absurd (omega arith)
drop-cons (suc n) x xs h = ap (λ (k : ℕ). drop k xs) (omega arith)

drop_none {ℓ} : {A : Type ℓ} (n : ℕ) (xs : List A) → n ≡ 0 → drop n xs ≡ xs
drop_none zero xs h = refl
drop_none (suc n) xs h = absurd (omega arith)

drop_all {ℓ} : {A : Type ℓ} (n : ℕ) (xs : List A) → length xs ≤ n → drop n xs ≡ []
drop_all zero [] h = refl
drop_all zero (x ∷ xs) h = absurd (omega arith)
drop_all (suc n) [] h = refl
drop_all (suc n) (x ∷ xs) h = drop_all n xs (omega arith)

Ascends-length :
    (first : ℕ) (fs : List RetainedFrame) (next : ℕ)
    → Ascends first fs next
    → next ≡ first + length fs
Ascends-length first [] next a = omega arith
Ascends-length first (f ∷ fs) next a = omega (arith, Ascends-length (first + 1) fs next a.1)

keep_if-drop :
    (first from : ℕ) (fs : List RetainedFrame) (next : ℕ)
    → Ascends first fs next
    → keep_if (λ f. leb from f.sequence) fs ≡ drop (from - first) fs
keep_if-drop first from [] next a = sym (drop_all (from - first) [] (omega arith))
keep_if-drop first from (f ∷ fs) next a = elim (dec_lt first from) [
  | yes l ↦ ground (arith, keep_if-drop (first + 1) from fs next a.1, drop-cons (from - first) f fs)
  | no n ↦ ground (
    arith,
    keep_if-drop (first + 1) from fs next a.1,
    drop_none (from - first) (f ∷ fs),
    drop_none (from - (first + 1)) fs,
  )
]

-- An accepted frame is the last of the window: asking for what follows its predecessor returns it
-- alone, and its bytes are the bytes given.
pub retain-since :
    (first : ℕ) (b : RetransmitBuffer) (s : ℕ) (bytes : List ℕ)
    → IsWindow first b
    → (retain s bytes b).0 ≡ ok tt
    → (s ≡ b.next_sequence)
      × (map slice (since s (retain s bytes b).1) ≡ bytes ∷ [])
      × ((retain s bytes b).1.next_sequence ≡ s + 1)
      × (remaining_capacity (retain s bytes b).1 + 1 ≡ remaining_capacity b)
unfolding retain since remaining_capacity slice
retain-since first b s bytes w e = ground (
  arith,
  keep_if-append (λ (f : RetainedFrame). leb s f.sequence) b.entries (store s bytes ∷ []),
  keep_if-drop first s b.entries b.next_sequence,
  drop_all (s - first) b.entries,
  Ascends-length first b.entries b.next_sequence,
  take-append_self bytes (replicate (max_frame - length bytes) 0),
  length-append b.entries (store s bytes ∷ []),
)

-- Where the frame continues the window, fits and finds room, it is accepted.
pub retain_accepts :
    (b : RetransmitBuffer) (bytes : List ℕ)
    → length bytes ≤ max_frame
    → length b.entries < b.capacity
    → b.next_sequence + 1 < u64_limit
    → (retain b.next_sequence bytes b).0 ≡ ok tt
unfolding retain
retain_accepts b bytes l c n = ground arith

-- A refusal leaves the buffer as it was.
pub retain_refused :
    (b : RetransmitBuffer) (s : ℕ) (bytes : List ℕ) {x : RetainError}
    → (retain s bytes b).0 ≡ err x
    → (retain s bytes b).1 ≡ b
unfolding retain
retain_refused b s bytes h = ground arith

drop_confirmed_lem :
    (c dropped first : ℕ) (fs : List RetainedFrame) (next : ℕ)
    → Ascends first fs next
    → drop_confirmed c dropped fs
      ≡ (drop (min (c + 1 - first) (length fs)) fs, dropped + min (c + 1 - first) (length fs))
unfolding drop_confirmed
drop_confirmed_lem c dropped first [] next a =
    ground (arith, drop_all {A = RetainedFrame} (min (c + 1 - first) 0) [])
drop_confirmed_lem c dropped first (f ∷ fs) next a = elim (dec_lt c first) [
  | yes l ↦ ground (arith, drop_none (min (c + 1 - first) (suc (length fs))) (f ∷ fs))
  | no n ↦ ground (
    arith,
    drop_confirmed_lem c (dropped + 1) (first + 1) fs next a.1,
    drop-cons (min (c + 1 - first) (suc (length fs))) f fs,
  )
]

Ascends-drop :
    (n first : ℕ) (fs : List RetainedFrame) (next : ℕ)
    → n ≤ length fs
    → Ascends first fs next
    → Ascends (first + n) (drop n fs) next
Ascends-drop zero first fs next h a = subst (λ k. Ascends k fs next) (omega arith) a
Ascends-drop (suc n) first [] next h a = absurd (omega arith)
Ascends-drop (suc n) first (f ∷ fs) next h a =
    subst (λ k. Ascends k (drop n fs) next) (omega arith)
      (Ascends-drop n (first + 1) fs next (omega arith) a.1)

drop-drop {ℓ} : {A : Type ℓ} (n m : ℕ) (xs : List A) → drop m (drop n xs) ≡ drop (n + m) xs
drop-drop zero m xs = ap (λ (k : ℕ). drop k xs) (omega arith)
drop-drop (suc n) m [] = drop_all m [] (omega arith) ∙ sym (drop_all (suc n + m) [] (omega arith))
drop-drop (suc n) m (x ∷ xs) =
    drop-drop n m xs ∙ ap (λ (k : ℕ). drop k (x ∷ xs)) {x = suc (n + m)} (omega arith)

length-drop_le {ℓ} : {A : Type ℓ} (n : ℕ) (xs : List A) → length (drop n xs) ≤ length xs
length-drop_le zero xs = omega arith
length-drop_le (suc n) [] = omega arith
length-drop_le (suc n) (x ∷ xs) = omega (arith, length-drop_le n xs)

-- Confirming drops the frames up to the confirmed sequence, and says how many; what `since` returns
-- from a later sequence on is the rest of the window from there, before and after.
pub confirm_through_lem :
    (first : ℕ) (b : RetransmitBuffer) (c from : ℕ)
    → IsWindow first b
    → c < from
    → ((confirm_through c b).0 ≡ min (c + 1 - first) (length b.entries))
      × IsWindow (first + (confirm_through c b).0) (confirm_through c b).1
      × (since from (confirm_through c b).1 ≡ since from b)
      × (since from b ≡ drop (from - first) b.entries)
unfolding confirm_through since
confirm_through_lem first b c from w h =
    let n : ℕ = min (c + 1 - first) (length b.entries) in
    let rest = Ascends-drop n first b.entries b.next_sequence (omega arith) w.ascends in
    ground (
      arith,
      drop_confirmed_lem c 0 first b.entries b.next_sequence w.ascends,
      rest,
      keep_if-drop (first + n) from (drop n b.entries) b.next_sequence rest,
      keep_if-drop first from b.entries b.next_sequence w.ascends,
      drop-drop n (from - (first + n)) b.entries,
      length-drop_le n b.entries,
      drop_all (from - first) b.entries,
      drop_all (n + (from - (first + n))) b.entries,
    )
