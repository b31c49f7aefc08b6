-- ===== src/Storage/RingBuffer.antt =====
-- backend/pkg/storage/ringbuffer.go: the ring of the most recent events.
-- The counters are unbounded numbers; `& mask` is `% capacity`, since the capacity is a power of two.
use deep_seek_harness_x.Prelude.{
  ℕ, zero, suc, ◌-◌, ◌*◌, ◌%◌, List, [], ◌∷◌, get_elem?, Option, none, some, ltb, leb,
  if◌then◌else◌,
}
use deep_seek_harness_x.Prelude.Int.{ℤ, leb_ℤ}
use deep_seek_harness_x.Session.Events.{SessionEnvelope}

-- `entries` has `capacity` slots, `none` for a nil pointer.
pub record RingBuffer : Type 0 where
  pub capacity : ℕ
  pub entries : List (Option SessionEnvelope)
  pub head : ℕ
  pub tail : ℕ

-- The doubling loop of NewRingBuffer: at most `fuel` doublings.
unfoldable pub power_of_two : ℕ → ℕ → ℕ → ℕ
power_of_two zero actual capacity = actual
power_of_two (suc fuel) actual capacity =
    let rest = power_of_two fuel (actual * 2) capacity in
    if ltb actual capacity then rest else actual

unfoldable pub nil_slots : ℕ → List (Option SessionEnvelope)
nil_slots zero = []
nil_slots (suc n) = none ∷ nil_slots n

unfoldable pub new_ring_buffer : ℕ → RingBuffer
unfolding power_of_two nil_slots
new_ring_buffer capacity =
    let actual = power_of_two capacity 1 capacity in
    record { capacity = actual; entries = nil_slots actual; head = 0; tail = 0 }

unfoldable pub store_at :
    ℕ → Option SessionEnvelope → List (Option SessionEnvelope) → List (Option SessionEnvelope)
store_at i env [] = []
store_at zero env (x ∷ xs) = env ∷ xs
store_at (suc i) env (x ∷ xs) = x ∷ store_at i env xs

-- A slot's pointer, nil also for an index that the array does not have.
abbrev pub slot : Option (Option SessionEnvelope) → Option SessionEnvelope
slot none = none
slot (some env) = env

unfoldable pub load_at : RingBuffer → ℕ → Option SessionEnvelope
load_at rb i = slot (get_elem? rb.entries (i % rb.capacity))

unfoldable pub push : SessionEnvelope → RingBuffer → RingBuffer
unfolding store_at
push env rb =
    let next = suc rb.tail in
    record {
      capacity = rb.capacity;
      entries = store_at (rb.tail % rb.capacity) (some env) rb.entries;
      head = if ltb rb.capacity (next - rb.head) then next - rb.capacity else rb.head;
      tail = next;
    }

abbrev pub keep_since : ℤ → Option SessionEnvelope → List SessionEnvelope → List SessionEnvelope
keep_since from_seq none rest = rest
keep_since from_seq (some env) rest = if leb_ℤ from_seq env.seq then env ∷ rest else rest

-- The loop of GetSince over `count` counters from `i`.
unfoldable pub get_range : RingBuffer → ℤ → ℕ → ℕ → List SessionEnvelope
unfolding load_at
get_range rb from_seq zero i = []
get_range rb from_seq (suc count) i =
    keep_since from_seq (load_at rb i) (get_range rb from_seq count (suc i))

unfoldable pub get_since : RingBuffer → ℤ → List SessionEnvelope
get_since rb from_seq = get_range rb from_seq (rb.tail - rb.head) rb.head

unfoldable pub latest : RingBuffer → Option SessionEnvelope
latest rb = if leb rb.tail rb.head then none else load_at rb (rb.tail - 1)

unfoldable pub clear : RingBuffer → RingBuffer
unfolding nil_slots
clear rb = record { capacity = rb.capacity; entries = nil_slots rb.capacity; head = 0; tail = 0 }
