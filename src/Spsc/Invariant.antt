-- ===== src/Spsc/Invariant.antt =====
-- crates/hft-spsc/src/lib.rs: an invariant of a `SpscQueue` under interleaving.
use hft_engine_rs.Prelude.{
  ℕ, zero, suc, ◌+◌, ◌%◌, ◌≤◌, ◌≡◌, ap, ◌∙◌, some, List, [], ◌∷◌, ◌++◌, arith, length, get_elem?,
  get_or, length-append,
}
use hft_engine_rs.Prelude.Words.{u64_limit}
use hft_engine_rs.Spsc.{SpscQueue, Producer, Consumer}
use hft_engine_rs.Spsc.Steps.{
  ProducerAt, ConsumerAt, at_rest, refreshing, writing, publishing, waiting, refreshing_tail,
  reading, reclaiming, System,
}
use hft_engine_rs.Spsc.Length.{IsLength, slot_of_position}
use hft_engine_rs.Spsc.Window.{Window}

-- A value written and not yet published, or read out and not yet handed out.
abbrev pub unpublished : {A : Type 0} → ProducerAt A → List A
unpublished at_rest = []
unpublished (refreshing v) = []
unpublished (writing v) = []
unpublished (publishing v) = v ∷ []

abbrev pub taken : {A : Type 0} → ConsumerAt A → List A
taken waiting = []
taken refreshing_tail = []
taken reading = []
taken (reclaiming v) = v ∷ []

-- The slots about to be written, and about to be read.
abbrev pub to_write : {A : Type 0} → ProducerAt A → ℕ
to_write at_rest = 0
to_write (refreshing v) = 0
to_write (writing v) = 1
to_write (publishing v) = 0

abbrev pub to_read : {A : Type 0} → ConsumerAt A → ℕ
to_read waiting = 0
to_read refreshing_tail = 0
to_read reading = 1
to_read (reclaiming v) = 0

-- The producer's positions, counted from the start and not wrapped around: it remembers one that the
-- consumer has stored, and does not write beyond the ring's length from it.
pub record ProducerView {A : Type 0} (n head written : ℕ) (p : Producer) (a : ProducerAt A)
    : Type 0 where
  pub seen : ℕ
  pub remembers : p.cached_head ≡ seen % u64_limit
  pub behind : seen ≤ head
  pub at : p.tail ≡ written % u64_limit
  pub room : written + to_write a ≤ seen + n

pub record ConsumerView {A : Type 0} (tail read : ℕ) (c : Consumer) (a : ConsumerAt A)
    : Type 0 where
  pub seen : ℕ
  pub remembers : c.cached_tail ≡ seen % u64_limit
  pub behind : seen ≤ tail
  pub at : c.head ≡ read % u64_limit
  pub room : read + to_read a ≤ seen

pub record Inv {A : Type 0} (n : ℕ) (xs ys : List A) (s : System A) : Type 0 where
  pub live : List A
  pub order : xs ++ unpublished s.producer_at ≡ (ys ++ taken s.consumer_at) ++ live
  pub window : Window n s.queue.slots (length (ys ++ taken s.consumer_at)) live
  pub tail_is : s.queue.tail ≡ length xs % u64_limit
  pub head_is : s.queue.head ≡ length ys % u64_limit
  pub producing :
      ProducerView n (length ys) (length (xs ++ unpublished s.producer_at)) s.producer s.producer_at
  pub consuming :
      ConsumerView (length xs) (length (ys ++ taken s.consumer_at)) s.consumer s.consumer_at

pub counted :
    {A : Type 0} (xs ys live : List A) → xs ≡ ys ++ live → length xs ≡ length ys + length live
counted xs ys live h = ap length h ∙ length-append ys live

pub slot_index :
    (n k position T P : ℕ)
    → IsLength n
    → k ≡ n
    → position ≡ T % u64_limit
    → T ≡ P
    → position % k ≡ P % n
slot_index n k position T P r z e t =
    ap (λ (m : ℕ). position % m) z
    ∙ (ap (λ (m : ℕ). m % n) e ∙ (slot_of_position n T r ∙ ap (λ (m : ℕ). m % n) t))

-- The positions are in order.
pub ordered :
    {A : Type 0} (n : ℕ) (xs ys : List A) (q : SpscQueue A) (p : Producer) (a : ProducerAt A)
    (c : Consumer) (b : ConsumerAt A)
    (i : Inv n xs ys
      (record { queue = q; producer = p; producer_at = a; consumer = c; consumer_at = b }))
    → (i.producing.seen ≤ length (xs ++ unpublished a))
      × (length ys ≤ length (xs ++ unpublished a))
      × (length (xs ++ unpublished a) ≤ i.producing.seen + n)
      × (length (ys ++ taken b) + length i.live ≡ length (xs ++ unpublished a))
ordered n xs ys q p a c b i =
    let e = counted (xs ++ unpublished a) (ys ++ taken b) i.live i.order in
    let t = length-append ys (taken b) in
    (
      omega (arith, i.producing.behind, e, t),
      omega (arith, e, t),
      omega (arith, i.producing.room),
      omega (arith, e),
    )

pub get_or-get_elem? :
    {A : Type 0} (xs : List A) (i : ℕ) (a d : A) → get_elem? xs i ≡ some a → get_or xs i d ≡ a
get_or-get_elem? [] i a d h = absurd (ground (arith, h))
get_or-get_elem? (x ∷ xs) zero a d h = ground (arith, h)
get_or-get_elem? (x ∷ xs) (suc i) a d h = get_or-get_elem? xs i a d h
