-- ===== src/Queue.antt =====
-- data/SPSCQueue.h and data/SPSCQueue.cpp: `ChannelFrameQueue`, a ring buffer with two counters that
-- only grow. A `ChannelFramePtr` is an `Option`, `none` being the null pointer. `size_t` and
-- `uint64_t` are numbers below `2 ^ 64`, with the wrap-around written out.
pub mod Fifo
pub mod Valid
pub mod Refine
pub mod Loop
pub mod Threads
pub mod Sound
pub mod Producing
pub mod Consuming
pub mod Interleaving
pub mod Alone
pub mod TwoConsumers
pub mod Filled
use sim_vision_sdk.Prelude.{
  ℕ, zero, suc, ◌+◌, ◌-◌, ◌%◌, ◌^◌, Bool, true, false, Option, none, some, List, [], ◌∷◌, ltb, leb,
  nat_eq, if◌then◌else◌, get_or, set, replicate,
}

abbrev pub word : ℕ
word = 2 ^ 64

-- `a + 1` and `a - b` on `size_t`
abbrev pub inc : ℕ → ℕ
inc a = (a + 1) % word

abbrev pub sub : ℕ → ℕ → ℕ
sub a b = (a + word - b) % word

-- `ChannelFrameQueue`
pub record Queue (A : Type 0) : Type 0 where
  pub capacity : ℕ
  pub buffer : List (Option A)
  pub head : ℕ
  pub tail : ℕ
  pub pushed : ℕ
  pub dropped : ℕ

module _ {A : Type 0} where
  -- the constructor
  unfoldable pub make : ℕ → Queue A
  make capacity =
      let cap = if ltb capacity 1 then 1 else capacity in
      record {
        capacity = cap;
        buffer = replicate cap none;
        head = 0;
        tail = 0;
        pushed = 0;
        dropped = 0;
      }

  unfoldable pub try_push : Queue A → Option A → Queue A × Bool
  try_push q frame =
      let h = q.head in
      let t = q.tail in
      if leb q.capacity (sub h t) then (record q { dropped = inc q.dropped }, false) else (
        record q {
          buffer = set q.buffer (h % q.capacity) frame;
          head = inc h;
          pushed = inc q.pushed;
        },
        true,
      )

  -- `none`: the queue was empty, and nothing changed. Otherwise what went through `out`.
  unfoldable pub try_pop : Queue A → Option (Option A × Queue A)
  try_pop q =
      let t = q.tail in
      let h = q.head in
      if nat_eq h t
      then none
      else some (
        get_or q.buffer (t % q.capacity) none,
        record q { buffer = set q.buffer (t % q.capacity) none; tail = inc t },
      )

  unfoldable pub empty : Queue A → Bool
  empty q = nat_eq q.head q.tail

  unfoldable pub full : Queue A → Bool
  full q = leb q.capacity (sub q.head q.tail)

  unfoldable pub size : Queue A → ℕ
  size q = sub q.head q.tail

  unfoldable pub reset_stats : Queue A → Queue A
  reset_stats q = record q { pushed = 0; dropped = 0 }

  -- `while (try_pop(p)) { out.push_back(p) }`: every loop over a queue in the program has this form.
  -- The fuel bounds the rounds.
  unfoldable pub pop_loop : ℕ → Queue A → List (Option A) × Queue A
  pop_loop zero q = ([], q)
  pop_loop (suc fuel) q = elim (try_pop q) [
    | none ↦ ([], q)
    | some (frame, q') ↦ let rest = pop_loop fuel q' in (frame ∷ rest.0, rest.1)
  ]

  -- With no push meanwhile, the loop takes as many rounds as the queue has frames.
  unfoldable pub pop_while : Queue A → List (Option A) × Queue A
  unfolding pop_loop size
  pop_while q = pop_loop (suc (size q)) q

  unfoldable pub clear : Queue A → Queue A
  unfolding pop_while
  clear q = (pop_while q).1
