-- ===== src/Server/Sending.antt =====
-- api/AdminServer.cpp: `send_all`. What the `k`-th call of `SSL_write` returns when it is offered `m` bytes is
-- an argument. A response is far shorter than the 2 ^ 31 bytes from which the cast to `int` would matter.
use sim_vision_sdk.Prelude.{
  ℕ, zero, suc, ◌+◌, ◌-◌, ◌*◌, ◌≤◌, ◌<◌, ◌≡◌, ◌↔◌, ◌⊎◌, inl, inr, refl, Bool, true, false, Option,
  none, some, arith, ltb, dec_lt,
}

-- `SSL_write` wrote that many bytes, or `SSL_get_error` says `WANT_WRITE`, or it says anything else.
pub data WriteResult : Type 0 where
  wrote : ℕ → WriteResult
  want_write broken : WriteResult

-- The result, and how many bytes were sent; `none` when the fuel is used up.
unfoldable pub send_all : ℕ → (ℕ → ℕ → WriteResult) → ℕ → ℕ → ℕ → ℕ → Option (Bool × ℕ)
send_all zero writes k size sent spins = none
send_all (suc fuel) writes k size sent spins = elim (ltb sent size) [
  | false ↦ some (true, sent)
  | true ↦ elim (writes k (size - sent)) [
    | wrote n ↦ send_all fuel writes (k + 1) size (sent + n) 0
    | want_write ↦ elim (ltb 64 (spins + 1)) [
      | true ↦ some (false, sent)
      | false ↦ send_all fuel writes (k + 1) size sent (spins + 1)
    ]
    | broken ↦ some (false, sent)
  ]
]

-- `SSL_write` writes at least one byte when it succeeds, and no more than it is offered.
abbrev pub WriteLaw : (ℕ → ℕ → WriteResult) → Type 0
WriteLaw writes = (k m n : ℕ) → writes k m ≡ wrote n → (1 ≤ n) × (n ≤ m)

WriteResult-cases :
    (r : WriteResult) → (r ≡ broken) ⊎ ((r ≡ want_write) ⊎ ((n : ℕ) × (r ≡ wrote n)))
WriteResult-cases broken = inl refl
WriteResult-cases want_write = inr (inl refl)
WriteResult-cases (wrote n) = inr (inr (n, refl))

-- The loop has ended: how much was sent, and that the result says whether that is all.
abbrev pub Ended : ℕ → Option (Bool × ℕ) → Type 0
Ended size none = ⊥
Ended size (some (ok, sent)) = (sent ≤ size) × ((ok ≡ true) ↔ (sent ≡ size))

send_loop :
    (writes : ℕ → ℕ → WriteResult) (fuel k size sent spins : ℕ)
    → WriteLaw writes
    → sent ≤ size
    → spins ≤ 64
    → 65 * (size - sent) + 65 < fuel + spins
    → Ended size (send_all fuel writes k size sent spins)
unfolding send_all
send_loop writes zero k size sent spins law le few enough = absurd (omega arith)
send_loop writes (suc fuel) k size sent spins law le few enough = elim (dec_lt sent size) [
  | no p ↦ ground (arith, p)
  | yes p ↦ elim (WriteResult-cases (writes k (size - sent))) [
    | inl e ↦ ground (arith, p, e)
    | inr (inl e) ↦ ground (arith, p, e, send_loop writes fuel (k + 1) size sent (spins + 1) law le)
    | inr (inr (n, e)) ↦
        let step : (1 ≤ n) × (n ≤ size - sent) = law k (size - sent) n e in
        ground (arith, p, e, step, send_loop writes fuel (k + 1) size (sent + n) 0 law)
  ]
]

-- If `SSL_write` keeps to its contract, `send_all` returns after at most 65 calls for each byte and 66 more,
-- and it returns true exactly if all bytes were sent.
pub send_all_lem :
    (writes : ℕ → ℕ → WriteResult) (size : ℕ)
    → WriteLaw writes
    → Ended size (send_all (65 * size + 66) writes 0 size 0 0)
send_all_lem writes size law =
    send_loop writes (65 * size + 66) 0 size 0 0 law (omega arith) (omega arith) (omega arith)
