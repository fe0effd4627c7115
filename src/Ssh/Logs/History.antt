-- ===== src/Ssh/Logs/History.antt =====
-- The ring buffer of src/vpsmcp/ssh/logs.py against the whole history of the stream: a subscription is the
-- abstract view of all the lines that came in, and a read is a window of that history.
use letkite_lite.Prelude.{
  ℕ, zero, suc, ◌+◌, ◌-◌, ◌≤◌, max, true, false, String, ◌≡◌, refl, sym, ap, ◌∙◌, List, [], ◌∷◌,
  ◌++◌, arith, length, take, drop, keep, length-append, length-drop, ltb, eqb, if◌then◌else◌,
  Bool-cases, inl, inr,
}
use letkite_lite.Ssh.Logs.{Row, LogSub, push, pump_line, pump, read, next_after}

-- Every line of the stream with its number.
abbrev pub rows_from : ℕ → List String → List Row
rows_from n [] = []
rows_from n (line ∷ lines) =
    let row : Row = record { seq = n; text = line } in row ∷ rows_from (suc n) lines

-- The subscription that the lines of `history` leave, if the buffer holds `maxlen` rows.
abbrev pub after_lines : ℕ → List String → LogSub
after_lines maxlen history = record {
  maxlen = maxlen;
  buf = drop (length history - maxlen) (rows_from 1 history);
  seq = length history;
  dropped = length history - maxlen;
  closed = false;
}

length-rows_from : (n : ℕ) (lines : List String) → length (rows_from n lines) ≡ length lines
length-rows_from n [] = refl
length-rows_from n (line ∷ lines) = ap suc (length-rows_from (suc n) lines)

abbrev row_at : ℕ → String → Row
row_at n line = record { seq = n; text = line }

rows_from-append :
    (n : ℕ) (lines : List String) (line : String)
    → rows_from n (lines ++ line ∷ []) ≡ rows_from n lines ++ row_at (n + length lines) line ∷ []
rows_from-append n [] line = ap (λ k. row_at k line ∷ []) (omega arith)
rows_from-append n (l ∷ lines) line =
    ap (λ rows. row_at n l ∷ rows)
      (rows_from-append (suc n) lines line
        ∙ ap (λ k. rows_from (suc n) lines ++ row_at k line ∷ []) (omega arith))

module _ {ℓ} {A : Type ℓ} where
  drop-nil : (n : ℕ) → Path (List A) (drop n []) []
  drop-nil zero = refl
  drop-nil (suc n) = refl

  drop-append : (n : ℕ) (xs ys : List A) → n ≤ length xs → drop n (xs ++ ys) ≡ drop n xs ++ ys
  drop-append zero xs ys le = refl
  drop-append (suc n) [] ys le = ground (arith, le)
  drop-append (suc n) (x ∷ xs) ys le = drop-append n xs ys (omega (arith, le))

  drop-add : (m n : ℕ) (xs : List A) → drop m (drop n xs) ≡ drop (m + n) xs
  drop-add m zero xs = ap (λ k. drop k xs) (omega arith)
  drop-add m (suc n) [] = drop-nil m ∙ sym (drop-nil (m + suc n))
  drop-add m (suc n) (x ∷ xs) = drop-add m n xs ∙ ap (λ k. drop k (x ∷ xs)) one_more
    where
      one_more : suc (m + n) ≡ m + suc n
      one_more = omega arith

  -- What is dropped twice from the front, with one more item at the end in between.
  drop-append-drop :
      (a b : ℕ) (xs ys : List A)
      → b ≤ length xs
      → drop a (drop b xs ++ ys) ≡ drop (a + b) (xs ++ ys)
  drop-append-drop a b xs ys le =
      ap (drop a) (sym (drop-append b xs ys le)) ∙ drop-add a b (xs ++ ys)

length-buffer :
    (n : ℕ) (history : List String)
    → length (after_lines n history).buf ≡ length history - (length history - n)
length-buffer n history =
    length-drop (length history - n) (rows_from 1 history)
    ∙ ap (λ k. k - (length history - n)) (length-rows_from 1 history)

push-after_lines :
    (n : ℕ) (history : List String) (line : String)
    → push n (row_at (length history + 1) line) (after_lines n history).buf
      ≡ (after_lines n (history ++ line ∷ [])).buf
unfolding push
push-after_lines n history line =
    let size = length history in
    let rows = rows_from 1 history in
    let fits : size - n ≤ length rows = omega (arith, length-rows_from 1 history) in
    let drops : length (drop (size - n) rows) + 1 - n + (size - n) ≡ size + 1 - n =
      omega (arith, length-buffer n history) in
    let last : size + 1 ≡ 1 + size = omega arith in
    drop-append-drop (length (drop (size - n) rows) + 1 - n) (size - n) rows
      (row_at (size + 1) line ∷ []) fits
    ∙ ap (λ k. drop k (rows ++ row_at (size + 1) line ∷ [])) drops
    ∙ ap (λ k. drop (size + 1 - n) (rows ++ row_at k line ∷ [])) last
    ∙ ap (drop (size + 1 - n)) (sym (rows_from-append 1 history line))
    ∙ ap (λ k. drop (k - n) (rows_from 1 (history ++ line ∷ [])))
        (sym (length-append history (line ∷ [])))

abbrev subscription : ℕ → List Row → ℕ → ℕ → LogSub
subscription maxlen buf seq dropped = record {
  maxlen = maxlen;
  buf = buf;
  seq = seq;
  dropped = dropped;
  closed = false;
}

-- One line refines one more line of the history.
pump_line-after_lines :
    (n : ℕ) (history : List String) (line : String)
    → pump_line line (after_lines n history) ≡ after_lines n (history ++ line ∷ [])
pump_line-after_lines n history line =
    let sub = after_lines n history in
    let next = history ++ line ∷ [] in
    let longer : length next ≡ length history + 1 =
      omega (arith, length-append history (line ∷ [])) in
    let lost : (if eqb (length sub.buf) n then length history - n + 1 else length history - n)
        ≡ length next - n =
      ground (arith, length-buffer n history, longer) in
    unfold pump_line in
    ap
      (λ b.
        subscription n b (length history + 1)
          (if eqb (length sub.buf) n then length history - n + 1 else length history - n))
      (push-after_lines n history line)
    ∙ ap (λ d. subscription n (after_lines n next).buf (length history + 1) d) lost
    ∙ ap (λ k. subscription n (after_lines n next).buf k (length next - n)) (sym longer)

append-assoc_one :
    (xs : List String) (y : String) (ys : List String) → (xs ++ y ∷ []) ++ ys ≡ xs ++ y ∷ ys
append-assoc_one [] y ys = refl
append-assoc_one (x ∷ xs) y ys = ap (λ l. x ∷ l) (append-assoc_one xs y ys)

append-empty : (xs : List String) → xs ++ [] ≡ xs
append-empty [] = refl
append-empty (x ∷ xs) = ap (λ l. x ∷ l) (append-empty xs)

abbrev pub finished : LogSub → LogSub
finished sub = record sub { closed = true }

-- `_pump` refines appending to the history: from the view of what came before, the view of all of it.
pub pump-after_lines :
    (n : ℕ) (history lines : List String)
    → pump lines (after_lines n history) ≡ finished (after_lines n (history ++ lines))
unfolding pump
pump-after_lines n history [] = ap (λ h. finished (after_lines n h)) (sym (append-empty history))
pump-after_lines n history (line ∷ lines) =
    ap (pump lines) (pump_line-after_lines n history line)
    ∙ pump-after_lines n (history ++ line ∷ []) lines
    ∙ ap (λ h. finished (after_lines n h)) (append-assoc_one history line lines)

keep-after :
    (since k : ℕ) (lines : List String)
    → keep (λ r. ltb since r.seq) (rows_from k lines) ≡ drop (suc since - k) (rows_from k lines)
keep-after since k [] = sym (drop-nil (suc since - k))
keep-after since k (line ∷ lines) = elim (Bool-cases (ltb since k)) [
  | inl after ↦
      let none_now : suc since - k ≡ 0 = ground (arith, after) in
      let none_later : suc since - suc k ≡ 0 = ground (arith, after) in
      rw (after, none_now)
        (ap (λ rows. row_at k line ∷ rows)
          (keep-after since (suc k) lines ∙ ap (λ m. drop m (rows_from (suc k) lines)) none_later))
  | inr seen ↦
      let one_more : suc since - k ≡ suc (suc since - suc k) = ground (arith, seen) in
      rw (seen, one_more) (keep-after since (suc k) lines)
]

keep-window :
    (since d k : ℕ) (lines : List String)
    → keep (λ r. ltb since r.seq) (drop d (rows_from k lines))
      ≡ drop (max d (suc since - k)) (rows_from k lines)
keep-window since zero k lines =
    keep-after since k lines ∙ ap (λ m. drop m (rows_from k lines)) (omega arith)
keep-window since (suc d) k [] = sym (drop-nil (max (suc d) (suc since - k)))
keep-window since (suc d) k (line ∷ lines) =
    let one_more : max (suc d) (suc since - k) ≡ suc (max d (suc since - suc k)) = omega arith in
    rw one_more (keep-window since d (suc k) lines)

-- The lines after the cursor that are still among the last `maxlen`, `limit` of them at most.
abbrev pub window : ℕ → ℕ → ℕ → List String → List Row
window maxlen since limit history =
    take limit (drop (max (length history - maxlen) since) (rows_from 1 history))

abbrev pub new_log : ℕ → LogSub
new_log maxlen = subscription maxlen [] 0 0

new_log-after_lines : (n : ℕ) → new_log n ≡ after_lines n []
new_log-after_lines n =
    ap (λ b. subscription n b 0 0) (sym (drop-nil (0 - n)))
    ∙ ap (λ d. subscription n (drop (0 - n) []) 0 d) (omega arith)

-- A read of a subscription that has taken in a whole stream: the lines of the stream after the
-- cursor that are among the last `maxlen`, with their numbers in the stream, `limit` of them at most, and the
-- number of the last of them as the next cursor, or the old cursor if there is none.
pub read-pump :
    (maxlen since limit : ℕ) (lines : List String)
    → read (pump lines (new_log maxlen)) since limit
      ≡ (window maxlen since limit lines, next_after since (window maxlen since limit lines))
unfolding read
read-pump maxlen since limit lines =
    let whole = ap (pump lines) (new_log-after_lines maxlen) ∙ pump-after_lines maxlen [] lines in
    ap (λ sub. read sub since limit) whole
    ∙ ap (λ rows. (take limit rows, next_after since (take limit rows)))
        (keep-window since (length lines - maxlen) 1 lines
          ∙ ap (λ k. drop (max (length lines - maxlen) k) (rows_from 1 lines)) from_cursor)
  where
    from_cursor : suc since - 1 ≡ since
    from_cursor = omega arith
