-- ===== src/RecipientCsv/Reader/Lines.antt =====
-- internal/recipientcsv/reader.go: lines that come in fragments.
use personalized_email_pipel.Prelude.{
  ℕ, ◌≡◌, refl, sym, ◌∙◌, ap, Bool, true, false, List, [], ◌∷◌, ◌++◌, ◌⊎◌, inl, inr, ltb, ◌==◌,
  if◌then◌else◌, length, length-append, append_assoc, All, arith, Bool-cases,
}
use personalized_email_pipel.Campaign.Text.{last_or}
use personalized_email_pipel.RecipientCsv.Reader.{
  Bytes, max_record_bytes, Slice, no_error, buffer_full, at_eof, without_last, without_return,
  payload_of, LineState, add_payload, add_fragment, LineAnswer, line_read, read_line_from,
  read_line, end_answer,
}

-- A line as it comes: fragments that fill the buffer, and a last one, behind which '\n' stands or the
-- input ends.
pub record Chopped : Type 0 where
  pub full : List Bytes
  pub last : Bytes
  pub terminated : Bool

-- Not empty, and without '\n' at its end.
pub record IsInner (f : Bytes) : Type 0 where
  pub first : ℕ
  pub others : Bytes
  pub parts : f ≡ first ∷ others
  pub open_end : (last_or 0 f == b'\n') ≡ false

pub record IsChopped (c : Chopped) : Type 0 where
  pub inner : All IsInner c.full
  pub ends : (c.terminated ≡ true) ⊎ ((c.terminated ≡ false) × IsInner c.last)

abbrev pub last_slice : Chopped → Slice
last_slice c =
    if c.terminated
    then record { fragment = c.last ++ b'\n' ∷ []; error = no_error }
    else record { fragment = c.last; error = at_eof }

abbrev pub slices_from : List Bytes → Slice → List Slice → List Slice
slices_from [] t rest = t ∷ rest
slices_from (f ∷ fs) t rest = record { fragment = f; error = buffer_full } ∷ slices_from fs t rest

abbrev pub slices_of : List Chopped → List Slice
slices_of [] = []
slices_of (c ∷ cs) = slices_from c.full (last_slice c) (slices_of cs)

-- The bytes of a line: a '\r' before its '\n' does not count.
abbrev pub joined : List Bytes → Bytes → Bytes
joined [] last = last
joined (f ∷ fs) last = f ++ joined fs last

abbrev pub bytes_of : Chopped → Bytes
bytes_of c = joined c.full (if c.terminated then without_return c.last else c.last)

abbrev pub is_oversized : Bytes → Bool
is_oversized line = ltb max_record_bytes (length line)

-- The state behind the bytes of a line so far.
abbrev state_of : Bytes → Bool → LineState
state_of line any =
    if is_oversized line
    then record { line = []; oversized = true; read_any = any }
    else record { line = line; oversized = false; read_any = any }

abbrev pub line_of : Bytes → LineAnswer
line_of line = if is_oversized line then line_read [] true else line_read line false

add_payload-state_of :
    (line p : Bytes) (any : Bool) → add_payload (state_of line any) p ≡ state_of (line ++ p) any
unfolding add_payload
add_payload-state_of line p any = elim (Bool-cases (is_oversized line)) [
  | inl e ↦ rw (e, longer e) refl
  | inr e ↦ rw (e, length-append line p) refl
]
  where
    longer : is_oversized line ≡ true → is_oversized (line ++ p) ≡ true
    longer h = rw (length-append line p) (ground arith)

read_any_state :
    (line : Bytes) (any : Bool)
    → ◌≡◌ {A = LineState} (record (state_of line any) { read_any = true }) (state_of line true)
read_any_state line any = elim (Bool-cases (is_oversized line)) [
  | inl e ↦ rw e refl
  | inr e ↦ rw e refl
]

add_fragment-state_of :
    (line f : Bytes) (any : Bool)
    → (length f == 0) ≡ false
    → add_fragment (state_of line any) f ≡ state_of (line ++ payload_of f) true
unfolding add_fragment
add_fragment-state_of line [] any h = ground arith
add_fragment-state_of line (c ∷ cs) any h =
    ap (λ s. add_payload s (payload_of (c ∷ cs))) (read_any_state line any)
    ∙ add_payload-state_of line (payload_of (c ∷ cs)) true

last_or-append : (d x : ℕ) (s : Bytes) → last_or d (s ++ x ∷ []) ≡ x
last_or-append d x [] = refl
last_or-append d x (c ∷ s) = last_or-append c x s

without_last-append : (x : ℕ) (s : Bytes) → without_last (s ++ x ∷ []) ≡ s
without_last-append x [] = refl
without_last-append x (c ∷ []) = refl
without_last-append x (c ∷ d ∷ s) = ap (λ t. c ∷ t) (without_last-append x (d ∷ s))

-- The line feed is cut off, and a carriage return before it.
payload_of-append : (s : Bytes) → payload_of (s ++ b'\n' ∷ []) ≡ without_return s
unfolding payload_of
payload_of-append s = rw (last_or-append 0 b'\n' s, without_last-append b'\n' s) refl

payload_of-IsInner : (f : Bytes) → IsInner f → payload_of f ≡ f
unfolding payload_of
payload_of-IsInner f h = rw h.open_end refl

length-IsInner : (f : Bytes) → IsInner f → (length f == 0) ≡ false
length-IsInner f h = rw h.parts (ground arith)

line_answer :
    (line : Bytes)
    → line_read (state_of line true).line (state_of line true).oversized ≡ line_of line
line_answer line = elim (Bool-cases (is_oversized line)) [ inl e ↦ rw e refl | inr e ↦ rw e refl ]

end_line : (line : Bytes) → end_answer (state_of line true) ≡ line_of line
end_line line = elim (Bool-cases (is_oversized line)) [ inl e ↦ rw e refl | inr e ↦ rw e refl ]

-- The last fragment of a line.
last_read :
    (c : Chopped) (line : Bytes) (any : Bool) (rest : List Slice)
    → (c.terminated ≡ true) ⊎ ((c.terminated ≡ false) × IsInner c.last)
    → read_line_from (state_of line any) (last_slice c ∷ rest)
      ≡ (line_of (line ++ (if c.terminated then without_return c.last else c.last)), rest)
unfolding read_line_from
last_read c line any rest (inl e) =
    let f = c.last ++ b'\n' ∷ [] in
    rw
      (
        e,
        add_fragment-state_of line f any (full c.last),
        payload_of-append c.last,
        line_answer (line ++ without_return c.last),
      )
      refl
  where
    full : (s : Bytes) → (length (s ++ b'\n' ∷ []) == 0) ≡ false
    full [] = refl
    full (c ∷ s) = ground arith
last_read c line any rest (inr (e, h)) =
    rw
      (
        e,
        add_fragment-state_of line c.last any (length-IsInner c.last h),
        payload_of-IsInner c.last h,
        end_line (line ++ c.last),
      )
      refl

-- The fragments of a line, behind the bytes that were read before them.
read_from :
    (c : Chopped) (line : Bytes) (any : Bool) (fs : List Bytes) (rest : List Slice)
    → All IsInner fs
    → (c.terminated ≡ true) ⊎ ((c.terminated ≡ false) × IsInner c.last)
    → read_line_from (state_of line any) (slices_from fs (last_slice c) rest)
      ≡ (line_of (line ++ joined fs (if c.terminated then without_return c.last else c.last)), rest)
unfolding read_line_from
read_from c line any [] rest a h = last_read c line any rest h
read_from c line any (f ∷ fs) rest a h =
    rw
      (
        add_fragment-state_of line f any (length-IsInner f a.0),
        payload_of-IsInner f a.0,
        sym (
            append_assoc line f
              (joined fs (if c.terminated then without_return c.last else c.last))),
      )
      (read_from c (line ++ f) true fs rest a.1 h)

pub read_line-Chopped :
    (c : Chopped) (rest : List Slice)
    → IsChopped c
    → read_line (slices_from c.full (last_slice c) rest) ≡ (line_of (bytes_of c), rest)
read_line-Chopped c rest h = read_from c [] false c.full rest h.inner h.ends
