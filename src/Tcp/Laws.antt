-- ===== src/Tcp/Laws.antt =====
-- myClient.c and myServer.c: what is read from the standard input, sent and shown.
use cpe464_program.Common.{
  ==→ne, All, Bool-cases, List, [], ap, arith, if◌then◌else◌, inl, inr, length, length-append,
  length-set, length-write_at, lt→ltb, ok, refl, set, set-write_at, suc, write_at, write_at-nil,
  write_at-set, zero, ℕ, ◌++◌, ◌+◌, ◌-◌, ◌<◌, ◌==◌, ◌∙◌, ◌∷◌, ◌≡◌, ◌≢◌, ◌≤◌,
}
use cpe464_program.Tcp.{Line, eof_char, maxbuf, newline, read_from_stdin, read_loop, store_char}

-- The line that stands at the front of the input, of at most `n` characters; after the end of the
-- input it is filled up with what `(char) EOF` is.
abbrev pub line_of : ℕ → List ℕ → List ℕ
line_of zero input = []
line_of (suc n) [] = eof_char ∷ line_of n []
line_of (suc n) (c ∷ input) = let rest = line_of n input in if c == newline then [] else c ∷ rest

-- What is left of the input, without the newline.
abbrev pub after_line : ℕ → List ℕ → List ℕ
after_line zero input = input
after_line (suc n) [] = after_line n []
after_line (suc n) (c ∷ input) =
    let rest = after_line n input in if c == newline then input else rest

pub length-line_of : (n : ℕ) (input : List ℕ) → length (line_of n input) ≤ n
length-line_of zero input = omega arith
length-line_of (suc n) [] = omega (arith, length-line_of n [])
length-line_of (suc n) (c ∷ input) = ground (arith, length-line_of n input)

-- The state after a line has been read on from character `i`.
abbrev with_line : ℕ → List ℕ → List ℕ → List ℕ → Line
with_line i line buffer input = record {
  buffer = write_at i line buffer;
  input_len = i + length line;
  input = input;
}

with_line-nil :
    (i : ℕ) (buffer input : List ℕ)
    → record { buffer = buffer; input_len = i; input = input } ≡ with_line i [] buffer input
with_line-nil i buffer input = ground (arith, write_at-nil i buffer)

with_line-cons :
    (i c : ℕ) (line buffer input : List ℕ)
    → with_line (i + 1) line (set buffer i c) input ≡ with_line i (c ∷ line) buffer input
with_line-cons i c line buffer input =
    let next : i + 1 ≡ suc i = omega arith in
    ground (arith, ap (λ n. write_at n line (set buffer i c)) next, write_at-set i c line buffer)

read_loop_lem :
    (left i : ℕ) (buffer input : List ℕ)
    → i + left < length buffer
    → read_loop left (record { buffer = buffer; input_len = i; input = input })
      ≡ ok (with_line i (line_of left input) buffer (after_line left input))
unfolding read_loop
read_loop_lem zero i buffer input room = ap ok (with_line-nil i buffer input)
read_loop_lem (suc left) i buffer [] room = rw (lt→ltb i (length buffer) (omega arith)) (
    read_loop_lem left (i + 1) (set buffer i eof_char) []
      (omega (arith, length-set buffer i eof_char))
    ∙ ap ok (with_line-cons i eof_char (line_of left []) buffer (after_line left [])))
read_loop_lem (suc left) i buffer (c ∷ input) room = elim (Bool-cases (c == newline)) [
  | inl last ↦ rw last (ap ok (with_line-nil i buffer input))
  | inr more ↦
      rw (more, lt→ltb i (length buffer) (omega arith))
        (read_loop_lem left (i + 1) (set buffer i c) input (omega (arith, length-set buffer i c))
          ∙ ap ok (with_line-cons i c (line_of left input) buffer (after_line left input)))
]

-- The characters of a C string: bytes other than NUL. A line has no newline.
abbrev pub IsText : List ℕ → Type 0
IsText text = All (λ b. 0 < b) text

abbrev pub HasNoNewline : List ℕ → Type 0
HasNoNewline line = All (λ b. b ≢ newline) line

pub line_of-HasNoNewline : (n : ℕ) (input : List ℕ) → HasNoNewline (line_of n input)
line_of-HasNoNewline zero input = tt
line_of-HasNoNewline (suc n) [] = ((λ e. omega (arith, e)), line_of-HasNoNewline n [])
line_of-HasNoNewline (suc n) (c ∷ input) = elim (Bool-cases (c == newline)) [
  | inl last ↦ rw last tt
  | inr more ↦ rw more ((λ e. ==→ne c newline more e), line_of-HasNoNewline n input)
]

-- The buffer after `readFromStdin`: the line with a NUL behind it.
abbrev pub terminated : List ℕ → List ℕ
terminated line = line ++ (0 ∷ [])

pub length-terminated : (line : List ℕ) → length (terminated line) ≡ length line + 1
length-terminated line = length-append line (0 ∷ [])

store_first : (stack : List ℕ) → 0 < length stack → store_char 0 0 stack ≡ ok (set stack 0 0)
unfolding store_char
store_first stack h = rw (lt→ltb 0 (length stack) h) refl

-- The last write of `readFromStdin`.
store_char-with_line :
    (line buffer input : List ℕ)
    → length line < length buffer
    → store_char (with_line 0 line buffer input).input_len 0 (with_line 0 line buffer input).buffer
      ≡ ok (write_at 0 (terminated line) buffer)
unfolding store_char
store_char-with_line line buffer input room =
    let no_more : 0 + length line ≡ length line = omega arith in
    rw no_more (
      rw (length-write_at, lt→ltb (length line) (length buffer) room)
        (ap ok (set-write_at line buffer 0 room)))

pub read_from_stdin_eq :
    (stack input : List ℕ)
    → length stack ≡ maxbuf
    → read_from_stdin stack input
      ≡ ok (record {
        buffer = write_at 0 (terminated (line_of (maxbuf - 1) input)) (set stack 0 0);
        input_len = length (line_of (maxbuf - 1) input) + 1;
        input = after_line (maxbuf - 1) input;
      })
unfolding read_from_stdin
read_from_stdin_eq stack input room =
    let buffer = set stack 0 0 in
    let size : length buffer ≡ maxbuf = length-set stack 0 0 ∙ room in
    let line = line_of (maxbuf - 1) input in
    let rest = after_line (maxbuf - 1) input in
    rw (store_first stack (omega (arith, room))) (
      rw (read_loop_lem (maxbuf - 1) 0 buffer input (omega (arith, size))) (
        rw
          (store_char-with_line line buffer rest
            (omega (arith, size, length-line_of (maxbuf - 1) input)))
          (ground arith)))
