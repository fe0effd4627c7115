-- ===== src/Ssh/Lines/Law.antt =====
-- `_capped_lines` of src/vpsmcp/ssh/logs.py against the lines of the whole stream, cut one by one.
use letkite_lite.Prelude.{
  ℕ, zero, suc, ◌≤◌, ◌<◌, Bool, true, false, ◌≡◌, refl, ap, ◌∙◌, sym, List, [], ◌∷◌, ◌++◌, map,
  arith, length, take, length-append, ltb, eqb, if◌then◌else◌, Bool-cases, inl, inr, ltb→lt,
}
use mathlib.Core.List.{append_assoc, append-nil, map-append}
use letkite_lite.Ssh.Lines.{
  Text, trunc, cap_line, step_line, split_lines, emit, still_skipping, overflow, round, last_line,
  lines_from, capped_lines,
}

-- The whole text of the stream.
unfoldable pub stream_text : List Text → Text
stream_text [] = []
stream_text ([] ∷ chunks) = []
stream_text ((c ∷ s) ∷ chunks) = (c ∷ s) ++ stream_text chunks

-- The specification: every line of the whole text, cut.
abbrev pub cut_all : ℕ → List Text × Text → List Text
cut_all max (ls, rem) = map (cap_line max) ls ++ last_line max false rem

-- The same without the first line, which has been given already.
abbrev pub cut_rest : ℕ → List Text × Text → List Text
cut_rest max ([], rem) = []
cut_rest max (l ∷ ls, rem) = cut_all max (ls, rem)

abbrev pub after : List Text × Text → List Text × Text → List Text × Text
after (ls, rem) (ls', rem') = (ls ++ ls', rem')

step_line-newline :
    (c : ℕ) (p : List Text × Text) → eqb c 10 ≡ true → step_line c p ≡ ([] ∷ p.0, p.1)
step_line-newline c ([], rem) e = rw e refl
step_line-newline c (l ∷ ls, rem) e = rw e refl

step_line-after :
    (c : ℕ) (ls : List Text) (rem t : Text)
    → step_line c (after (ls, rem) (split_lines (rem ++ t)))
      ≡ after (step_line c (ls, rem)) (split_lines ((step_line c (ls, rem)).1 ++ t))
step_line-after c [] rem t = elim (Bool-cases (eqb c 10)) [
  | inl nl ↦ rw (step_line-newline c (split_lines (rem ++ t)) nl, nl) refl
  | inr other ↦ unfold split_lines in rw other refl
]
step_line-after c (l ∷ ls) rem t = elim (Bool-cases (eqb c 10)) [
  | inl nl ↦ rw nl refl
  | inr other ↦ rw other refl
]

split_lines-append :
    (s t : Text)
    → split_lines (s ++ t) ≡ after (split_lines s) (split_lines ((split_lines s).1 ++ t))
unfolding split_lines
split_lines-append [] t = refl
split_lines-append (c ∷ s) t =
    ap (step_line c) (split_lines-append s t)
    ∙ step_line-after c (split_lines s).0 (split_lines s).1 t

-- A text without a newline.
abbrev pub NoNewline : Text → Type 0
NoNewline [] = Unit {0}
NoNewline (c ∷ s) = (eqb c 10 ≡ false) × NoNewline s

step_line-NoNewline : (c : ℕ) (p : List Text × Text) → NoNewline p.1 → NoNewline (step_line c p).1
step_line-NoNewline c ([], rem) h = elim (Bool-cases (eqb c 10)) [
  | inl nl ↦ rw nl h
  | inr other ↦ rw other (other, h)
]
step_line-NoNewline c (l ∷ ls, rem) h = elim (Bool-cases (eqb c 10)) [
  | inl nl ↦ rw nl h
  | inr other ↦ rw other h
]

-- What follows the last newline has none.
rest-NoNewline : (s : Text) → NoNewline (split_lines s).1
unfolding split_lines
rest-NoNewline [] = tt
rest-NoNewline (c ∷ s) = step_line-NoNewline c (split_lines s) (rest-NoNewline s)

abbrev prepend : Text → List Text × Text → List Text × Text
prepend s ([], rem) = ([], s ++ rem)
prepend s (l ∷ ls, rem) = ((s ++ l) ∷ ls, rem)

step_line-prepend :
    (c : ℕ) (s : Text) (p : List Text × Text)
    → eqb c 10 ≡ false
    → step_line c (prepend s p) ≡ prepend (c ∷ s) p
step_line-prepend c s ([], rem) h = rw h refl
step_line-prepend c s (l ∷ ls, rem) h = rw h refl

prepend-nil : (p : List Text × Text) → p ≡ prepend [] p
prepend-nil ([], rem) = refl
prepend-nil (l ∷ ls, rem) = refl

split_lines-prepend : (s t : Text) → NoNewline s → split_lines (s ++ t) ≡ prepend s (split_lines t)
unfolding split_lines
split_lines-prepend [] t h = prepend-nil (split_lines t)
split_lines-prepend (c ∷ s) t h =
    ap (step_line c) (split_lines-prepend s t h.1) ∙ step_line-prepend c s (split_lines t) h.0

take-append_left : (n : ℕ) (s t : Text) → n < length s → take n (s ++ t) ≡ take n s
take-append_left zero s t h = refl
take-append_left (suc n) [] t h = absurd (omega arith)
take-append_left (suc n) (c ∷ s) t h = ap (◌∷◌ c) (take-append_left n s t (omega arith))

-- Past the limit, a line is cut whatever follows.
cap_line-append :
    (max : ℕ) (s t : Text) → max < length s → cap_line max (s ++ t) ≡ take max s ++ trunc
unfolding cap_line
cap_line-append max s t h = ground (arith, take-append_left max s t h, length-append s t)

abbrev pub cut : ℕ → Bool → List Text × Text → List Text
cut max true p = cut_rest max p
cut max false p = cut_all max p

last_line-append :
    (max : ℕ) (s t : Text)
    → max < length s
    → last_line max false (s ++ t) ≡ (take max s ++ trunc) ∷ []
last_line-append max [] t h = absurd (omega arith)
last_line-append max (c ∷ s) t h = ap (λ l. l ∷ []) (cap_line-append max (c ∷ s) t h)

-- An unfinished line past the limit: what is given for it now, and the rest without it.
cut_all-prepend :
    (max : ℕ) (s : Text) (p : List Text × Text)
    → max < length s
    → cut_all max (prepend s p) ≡ (take max s ++ trunc) ∷ cut_rest max p
cut_all-prepend max s ([], rem) h = last_line-append max s rem h
cut_all-prepend max s (l ∷ ls, rem) h =
    ap (λ k. k ∷ (map (cap_line max) ls ++ last_line max false rem)) (cap_line-append max s l h)

cut_rest-prepend :
    (max : ℕ) (s : Text) (p : List Text × Text) → cut_rest max (prepend s p) ≡ cut_rest max p
cut_rest-prepend max s ([], rem) = refl
cut_rest-prepend max s (l ∷ ls, rem) = refl

cut_all-after :
    (max : ℕ) (ls : List Text) (rem : Text) (p : List Text × Text)
    → cut_all max (after (ls, rem) p) ≡ map (cap_line max) ls ++ cut_all max p
cut_all-after max ls rem p =
    rw (map-append (cap_line max) ls p.0)
      (append_assoc (map (cap_line max) ls) (map (cap_line max) p.0) (last_line max false p.1))

-- One round, then the specification of what is left, is the specification of the whole.
overflow-cut :
    (max : ℕ) (skipping : Bool) (ls : List Text) (rem t : Text)
    → NoNewline rem
    → let r = overflow max (still_skipping skipping ls) (emit max skipping ls) rem in
      r.out ++ cut max r.skipping (split_lines (r.buf ++ t))
      ≡ cut max skipping (after (ls, rem) (split_lines (rem ++ t)))
overflow-cut max skipping ls rem t h = elim (Bool-cases (ltb max (length rem))) [
  | inl long ↦ rw long (past (ltb→lt max (length rem) long) skipping ls)
  | inr short ↦ rw short (within skipping ls)
]
  where
    within :
        (sk : Bool) (ks : List Text)
        → emit max sk ks ++ cut max (still_skipping sk ks) (split_lines (rem ++ t))
          ≡ cut max sk (after (ks, rem) (split_lines (rem ++ t)))
    within true [] = refl
    within true (k ∷ ks) = sym (cut_all-after max ks rem (split_lines (rem ++ t)))
    within false [] = refl
    within false (k ∷ ks) = sym (cut_all-after max (k ∷ ks) rem (split_lines (rem ++ t)))

    all_rest :
        max < length rem
        → (take max rem ++ trunc) ∷ cut_rest max (split_lines t)
          ≡ cut_all max (split_lines (rem ++ t))
    all_rest long =
        rw (split_lines-prepend rem t h) (sym (cut_all-prepend max rem (split_lines t) long))

    past_some :
        (ks : List Text)
        → max < length rem
        → (map (cap_line max) ks ++ (take max rem ++ trunc) ∷ []) ++ cut_rest max (split_lines t)
          ≡ cut_all max (after (ks, rem) (split_lines (rem ++ t)))
    past_some ks long =
        append_assoc (map (cap_line max) ks) ((take max rem ++ trunc) ∷ [])
          (cut_rest max (split_lines t))
        ∙ ap (λ k. map (cap_line max) ks ++ k) (all_rest long)
        ∙ sym (cut_all-after max ks rem (split_lines (rem ++ t)))

    past :
        max < length rem
        → (sk : Bool) (ks : List Text)
        → (emit max sk ks ++ (if still_skipping sk ks then [] else (take max rem ++ trunc) ∷ []))
            ++ cut max true (split_lines t)
          ≡ cut max sk (after (ks, rem) (split_lines (rem ++ t)))
    past long true [] =
        rw (split_lines-prepend rem t h) (sym (cut_rest-prepend max rem (split_lines t)))
    past long true (k ∷ ks) = past_some ks long
    past long false [] = all_rest long
    past long false (k ∷ ks) = past_some (k ∷ ks) long

overflow-NoNewline :
    (max : ℕ) (skipping : Bool) (out : List Text) (rem : Text)
    → NoNewline rem
    → NoNewline (overflow max skipping out rem).buf
      × (length (overflow max skipping out rem).buf ≤ max)
overflow-NoNewline max skipping out rem h = elim (Bool-cases (ltb max (length rem))) [
  | inl long ↦ rw long (tt, omega arith)
  | inr short ↦ rw short (h, ground arith)
]

-- Whatever the chunk, the buffer that is kept for the next one is no longer than the limit.
pub length-round :
    (max : ℕ) (buf : Text) (skipping : Bool) (chunk : Text)
    → length (round max buf skipping chunk).buf ≤ max
unfolding round
length-round max buf skipping chunk =
    let p = split_lines (buf ++ chunk) in
    (overflow-NoNewline max (still_skipping skipping p.0) (emit max skipping p.0) p.1
      (rest-NoNewline (buf ++ chunk))).1

split_lines_nil : split_lines [] ≡ ([], [])
unfolding split_lines
split_lines_nil = refl

round_lem :
    (max : ℕ) (buf : Text) (skipping : Bool) (chunk : Text)
    → round max buf skipping chunk ≡ (
        let p = split_lines (buf ++ chunk) in
        overflow max (still_skipping skipping p.0) (emit max skipping p.0) p.1)
unfolding round
round_lem max buf skipping chunk = refl

round-NoNewline :
    (max : ℕ) (buf : Text) (skipping : Bool) (chunk : Text)
    → NoNewline (round max buf skipping chunk).buf
round-NoNewline max buf skipping chunk =
    let p = split_lines (buf ++ chunk) in
    rw (round_lem max buf skipping chunk)
      (overflow-NoNewline max (still_skipping skipping p.0) (emit max skipping p.0) p.1
        (rest-NoNewline (buf ++ chunk))).0

round-cut :
    (max : ℕ) (buf : Text) (skipping : Bool) (chunk t : Text)
    → let r = round max buf skipping chunk in
      r.out ++ cut max r.skipping (split_lines (r.buf ++ t))
      ≡ cut max skipping (split_lines (buf ++ (chunk ++ t)))
round-cut max buf skipping chunk t =
    let p = split_lines (buf ++ chunk) in
    rw
      (
        round_lem max buf skipping chunk,
        ← append_assoc buf chunk t,
        split_lines-append (buf ++ chunk) t,
      )
      (overflow-cut max skipping p.0 p.1 t (rest-NoNewline (buf ++ chunk)))

last_line-cut :
    (max : ℕ) (buf : Text) (skipping : Bool)
    → NoNewline buf
    → last_line max skipping buf ≡ cut max skipping (split_lines (buf ++ []))
last_line-cut max buf skipping h =
    rw (split_lines-prepend buf [] h, split_lines_nil, append-nil buf) (at_end buf skipping)
  where
    at_end : (s : Text) (sk : Bool) → last_line max sk s ≡ cut max sk ([], s)
    at_end [] true = refl
    at_end (c ∷ s) true = refl
    at_end s false = refl

lines_from-cut :
    (max : ℕ) (buf : Text) (skipping : Bool) (chunks : List Text)
    → NoNewline buf
    → lines_from max buf skipping chunks
      ≡ cut max skipping (split_lines (buf ++ stream_text chunks))
unfolding lines_from stream_text
lines_from-cut max buf skipping [] h = last_line-cut max buf skipping h
lines_from-cut max buf skipping ([] ∷ chunks) h = last_line-cut max buf skipping h
lines_from-cut max buf skipping ((c ∷ s) ∷ chunks) h =
    let r = round max buf skipping (c ∷ s) in
    ap (λ k. r.out ++ k)
      (lines_from-cut max r.buf r.skipping chunks (round-NoNewline max buf skipping (c ∷ s)))
    ∙ round-cut max buf skipping (c ∷ s) (stream_text chunks)

-- However the stream is cut into chunks, the lines given are the lines of its whole text, each cut
-- to the limit, the last one too if it has no newline.
pub capped_lines-eq-cut_all :
    (max : ℕ) (chunks : List Text)
    → capped_lines max chunks ≡ cut_all max (split_lines (stream_text chunks))
unfolding capped_lines
capped_lines-eq-cut_all max chunks = lines_from-cut max [] false chunks tt
