-- ===== src/Ssh/Logs/Cursor.antt =====
-- Reading a log subscription by cursor: `LogManager.read` after `LogManager._pump`.
use letkite_lite.Prelude.{
  ℕ, zero, suc, ◌+◌, ◌-◌, ◌≤◌, ◌<◌, min, String, ◌≡◌, refl, sym, ap, ◌∙◌, List, [], ◌∷◌, arith,
  length, take, keep, length-take, ltb, lt→ltb, Bool-cases, inl, inr,
}
use letkite_lite.Ssh.Logs.{
  Row, LogSub, pump_line, pump, read, next_after, Numbered, IsComplete, pump_line-IsComplete,
}

keep-all :
    (since n : ℕ) (rows : List Row)
    → since < n
    → Numbered n rows
    → keep (λ r. ltb since r.seq) rows ≡ rows
keep-all since n [] lt h = refl
keep-all since n (r ∷ rows) lt h =
    rw
      (
        lt→ltb since r.seq (omega (arith, lt, h.0)),
        keep-all since (suc n) rows (omega (arith, lt)) h.1,
      )
      refl

Numbered-cast : (m n : ℕ) (rows : List Row) → m ≡ n → Numbered m rows → Numbered n rows
Numbered-cast m n rows e h = rw (sym e) h

next_after-cons :
    (a b : ℕ) (r : Row) (rows : List Row) → next_after a (r ∷ rows) ≡ next_after b (r ∷ rows)
next_after-cons a b r [] = refl
next_after-cons a b r (s ∷ rows) = next_after-cons a b s rows

-- What is left of numbered rows after the cursor begins right after the cursor.
keep-Numbered :
    (since n : ℕ) (rows : List Row)
    → n ≤ since + 1
    → Numbered n rows
    → Numbered (suc since) (keep (λ r. ltb since r.seq) rows)
      × (length (keep (λ r. ltb since r.seq) rows) ≡ n + length rows - suc since)
keep-Numbered since n [] le h = (tt, omega arith)
keep-Numbered since n (r ∷ rows) le h = elim (Bool-cases (ltb since r.seq)) [
  | inl after ↦
      rw (after, keep-all since (suc n) rows (ground (arith, after, h.0)) h.1)
        (
          (
            ground (arith, after, le, h.0),
            Numbered-cast (suc n) (suc (suc since)) rows (ground (arith, after, le, h.0)) h.1,
          ),
          ground (arith, after, le, h.0),
        )
  | inr seen ↦
      let rest = keep-Numbered since (suc n) rows (ground (arith, seen, h.0)) h.1 in
      rw seen (rest.0, omega (arith, rest.1))
]

take-Numbered : (k n : ℕ) (rows : List Row) → Numbered n rows → Numbered n (take k rows)
take-Numbered zero n rows h = tt
take-Numbered (suc k) n [] h = tt
take-Numbered (suc k) n (r ∷ rows) h = (h.0, take-Numbered k (suc n) rows h.1)

next_after-Numbered :
    (since : ℕ) (rows : List Row)
    → Numbered (suc since) rows
    → next_after since rows ≡ since + length rows
next_after-Numbered since [] h = omega arith
next_after-Numbered since (r ∷ []) h = omega (arith, h.0)
next_after-Numbered since (r ∷ s ∷ rows) h =
    rw (next_after-cons since (suc since) s rows, next_after-Numbered (suc since) (s ∷ rows) h.1)
      (omega arith)

read_lem :
    (sub : LogSub) (since limit : ℕ)
    → read sub since limit ≡ (
      take limit (keep (λ r. ltb since r.seq) sub.buf),
      next_after since (take limit (keep (λ r. ltb since r.seq) sub.buf)),
    )
unfolding read
read_lem sub since limit = refl

-- `read` of a subscription whose buffer still reaches back to the cursor: the rows
-- are numbered from the cursor on with no gap, there are as many as the limit and the lines that
-- came in allow, and the next cursor is the last row's number.
pub read-continues :
    (sub : LogSub) (since limit : ℕ)
    → IsComplete sub
    → sub.dropped ≤ since
    → Numbered (suc since) (read sub since limit).0
      × (length (read sub since limit).0 ≡ min limit (sub.seq - since))
      × ((read sub since limit).1 ≡ since + min limit (sub.seq - since))
read-continues sub since limit c le =
    let kept = keep-Numbered since (suc sub.dropped) sub.buf (omega (arith, le)) c.numbered in
    let rows = take-Numbered limit (suc since) (keep (λ r. ltb since r.seq) sub.buf) kept.0 in
    let count : length (take limit (keep (λ r. ltb since r.seq) sub.buf))
        ≡ min limit (sub.seq - since) =
      omega (arith, length-take limit (keep (λ r. ltb since r.seq) sub.buf), kept.1, c.counted) in
    rw (read_lem sub since limit) (
      rows,
      count,
      next_after-Numbered since (take limit (keep (λ r. ltb since r.seq) sub.buf)) rows
          ∙ ap (λ k. since + k) count,
    )

-- `_pump` over a whole stream keeps the subscription complete and numbers every line of it.
pub pump-numbers :
    (lines : List String) (sub : LogSub)
    → IsComplete sub
    → IsComplete (pump lines sub) × ((pump lines sub).seq ≡ sub.seq + length lines)
unfolding pump
pump-numbers [] sub c = (
  record { room = c.room; bounded = c.bounded; counted = c.counted; numbered = c.numbered },
  omega arith,
)
pump-numbers (line ∷ lines) sub c =
    let h = pump-numbers lines (pump_line line sub) (pump_line-IsComplete line sub c) in
    (h.0, h.1 ∙ unfold pump_line in omega arith)
