-- ===== src/Ssh/Logs.antt =====
-- `LogSub`, `LogManager._pump` and `LogManager.read` of src/vpsmcp/ssh/logs.py: a ring buffer of
-- numbered lines that is read by cursor. A line is an opaque text; the time of a row is left out.
pub mod Cursor
pub mod History
use letkite_lite.Prelude.{
  ℕ, zero, suc, ◌+◌, ◌-◌, ◌≤◌, ◌<◌, min, Bool, true, false, String, ◌≡◌, ◌≢◌, refl, sym, ap, ◌∙◌,
  List, [], ◌∷◌, ◌++◌, arith, length, take, drop, keep, length-append, length-drop, length-take,
  ltb, eqb, if◌then◌else◌, Bool-cases, inl, inr,
}

pub record Row : Type 0 where
  pub seq : ℕ
  pub text : String

pub record LogSub : Type 0 where
  pub maxlen : ℕ
  pub buf : List Row
  pub seq : ℕ
  pub dropped : ℕ
  pub closed : Bool

-- deque(maxlen=n).append(r): a full deque loses its oldest item.
unfoldable pub push : ℕ → Row → List Row → List Row
push n r buf = drop (length buf + 1 - n) (buf ++ r ∷ [])

-- The body of the loop of `_pump`.
unfoldable pub pump_line : String → LogSub → LogSub
unfolding push
pump_line line sub = record sub {
  dropped = if eqb (length sub.buf) sub.maxlen then sub.dropped + 1 else sub.dropped;
  seq = sub.seq + 1;
  buf = push sub.maxlen (record { seq = sub.seq + 1; text = line }) sub.buf;
}

-- The whole of `_pump` over the lines of a stream that ends.
unfoldable pub pump : List String → LogSub → LogSub
unfolding pump_line
pump [] sub = record sub { closed = true }
pump (line ∷ lines) sub = pump lines (pump_line line sub)

-- `except Exception`: a last row is written, and what it pushes out is not counted.
unfoldable pub pump_failure : String → LogSub → LogSub
unfolding push
pump_failure message sub = record sub {
  seq = sub.seq + 1;
  buf = push sub.maxlen (record { seq = sub.seq + 1; text = message }) sub.buf;
  closed = true;
}

abbrev pub next_after : ℕ → List Row → ℕ
next_after since [] = since
next_after since (r ∷ []) = r.seq
next_after since (r ∷ s ∷ rows) = next_after since (s ∷ rows)

-- The rows and the cursor for the next call.
unfoldable pub read : LogSub → ℕ → ℕ → List Row × ℕ
read sub since limit =
    let rows = take limit (keep (λ r. ltb since r.seq) sub.buf) in (rows, next_after since rows)

-- The rows are numbered from n on, with no gap.
abbrev pub Numbered : ℕ → List Row → Type 0
Numbered n [] = Unit {0}
Numbered n (r ∷ rows) = (r.seq ≡ n) × Numbered (suc n) rows

-- Every line was given a number, and is in the buffer or counted as dropped.
pub record IsComplete (sub : LogSub) : Type 0 where
  pub room : 0 < sub.maxlen
  pub bounded : length sub.buf ≤ sub.maxlen
  pub counted : sub.dropped + length sub.buf ≡ sub.seq
  pub numbered : Numbered (suc sub.dropped) sub.buf

Numbered-concat :
    (n : ℕ) (rows : List Row) (r : Row)
    → Numbered n rows
    → r.seq ≡ n + length rows
    → Numbered n (rows ++ r ∷ [])
Numbered-concat n [] r h e = (omega arith, tt)
Numbered-concat n (s ∷ rows) r h e = (h.0, Numbered-concat (suc n) rows r h.1 (omega arith))

Numbered-drop_one : (n : ℕ) (rows : List Row) → Numbered n rows → Numbered (suc n) (drop 1 rows)
Numbered-drop_one n [] h = tt
Numbered-drop_one n (r ∷ rows) h = h.1

push_full :
    (n : ℕ) (r : Row) (buf : List Row) → length buf ≡ n → push n r buf ≡ drop 1 (buf ++ r ∷ [])
unfolding push
push_full n r buf h = ap (λ k. drop k (buf ++ r ∷ [])) one
  where
    one : length buf + 1 - n ≡ 1
    one = omega arith

push_room : (n : ℕ) (r : Row) (buf : List Row) → length buf < n → push n r buf ≡ buf ++ r ∷ []
unfolding push
push_room n r buf h = ap (λ k. drop k (buf ++ r ∷ [])) nothing
  where
    nothing : length buf + 1 - n ≡ 0
    nothing = omega arith

length-push :
    (n : ℕ) (r : Row) (buf : List Row)
    → length (push n r buf) ≡ length buf + 1 - (length buf + 1 - n)
unfolding push
length-push n r buf =
    omega (arith, length-append buf (r ∷ []), length-drop (length buf + 1 - n) (buf ++ r ∷ []))

push-Numbered-full :
    (n : ℕ) (d : ℕ) (r : Row) (buf : List Row)
    → length buf ≡ n
    → Numbered d (buf ++ r ∷ [])
    → Numbered (suc d) (push n r buf)
push-Numbered-full n d r buf full h =
    rw (push_full n r buf full) (Numbered-drop_one d (buf ++ r ∷ []) h)

push-Numbered-room :
    (n : ℕ) (d : ℕ) (r : Row) (buf : List Row)
    → length buf < n
    → Numbered d (buf ++ r ∷ [])
    → Numbered d (push n r buf)
push-Numbered-room n d r buf room h = rw (push_room n r buf room) h

add_one : (n : ℕ) → n + 1 ≡ suc n
add_one n = omega arith

eqb→eq : {a b : ℕ} → eqb a b ≡ true → a ≡ b
eqb→eq h = ground arith

fits : {a b : ℕ} → eqb a b ≡ false → a ≤ b → a < b
fits h le = ground arith

-- Each line that comes in keeps the subscription complete.
pub pump_line-IsComplete :
    (line : String) (sub : LogSub) → IsComplete sub → IsComplete (pump_line line sub)
unfolding pump_line
pump_line-IsComplete line sub c =
    let row : Row = record { seq = sub.seq + 1; text = line } in
    let next =
      Numbered-concat (suc sub.dropped) sub.buf row c.numbered (omega (arith, c.counted)) in
    elim (Bool-cases (eqb (length sub.buf) sub.maxlen)) [
      | inl full ↦ record {
        room = c.room;
        bounded = omega (arith, length-push sub.maxlen row sub.buf, c.bounded);
        counted = ground (arith, c.counted, full, length-push sub.maxlen row sub.buf);
        numbered =
            rw (full, add_one sub.dropped)
              (push-Numbered-full sub.maxlen (suc sub.dropped) row sub.buf (eqb→eq full) next);
      }
      | inr room ↦ record {
        room = c.room;
        bounded = omega (arith, length-push sub.maxlen row sub.buf, c.bounded);
        counted = ground (arith, c.counted, room, c.bounded, length-push sub.maxlen row sub.buf);
        numbered = rw room (
            push-Numbered-room sub.maxlen (suc sub.dropped) row sub.buf (fits room c.bounded) next);
      }
    ]
