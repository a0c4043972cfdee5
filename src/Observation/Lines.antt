-- ===== src/Observation/Lines.antt =====
-- The lines of the events that src/observation.rs reassembles, and observers at their ends.
use open_proxy.Common.{
  ℕ, ◌+◌, ◌≤◌, ◌≡◌, ◌≢◌, refl, ap, ◌∙◌, Bool, true, false, List, [], ◌∷◌, ◌++◌, append-nil, All,
  Bool-cases, nat_beq, ◌⊎◌, inl, inr, All-append, length, length-append, arith,
}
use open_proxy.Observation.State.{ObservationState}
use open_proxy.Observation.Sse.{
  SseObserver, newline, carriage_return, data_prefix, strip_prefix, strip_space, drop_cr,
}

-- An observer that keeps data and the start of a line, and drops nothing.
abbrev pub keeping : ObservationState → ℕ → List ℕ → List ℕ → SseObserver
keeping s n d line = record {
  state = s;
  current_data = d;
  current_line = line;
  discarded_event = false;
  discarded_line_has_content = false;
  discarded_line_ends_cr = false;
  completion_events = n;
}

-- An observer between two events.
abbrev pub idle : ObservationState → ℕ → SseObserver
idle s n = keeping s n [] []

-- An observer that drops the rest of an event.
abbrev pub dropping : ObservationState → ℕ → Bool → Bool → SseObserver
dropping s n content cr = record {
  state = s;
  current_data = [];
  current_line = [];
  discarded_event = true;
  discarded_line_has_content = content;
  discarded_line_ends_cr = cr;
  completion_events = n;
}

-- A line's end, LF or CRLF.
abbrev pub cr_of : Bool → List ℕ
cr_of true = carriage_return ∷ []
cr_of false = []

-- A `data:` line with a text.
abbrev pub line_of : Bool → List ℕ → List ℕ
line_of crlf text = (data_prefix ++ text) ++ cr_of crlf

-- The bytes of an event that is one `data:` line.
abbrev pub event_bytes : Bool → List ℕ → List ℕ
event_bytes crlf text = line_of crlf text ++ newline ∷ (cr_of crlf ++ newline ∷ [])

abbrev Unspaced : List ℕ → Type 0
Unspaced [] = Unit
Unspaced (b ∷ bs) = b ≢ b' '

-- What the text behind `data:` carries: all of it but one space in front, if there is one.
abbrev pub Carries : List ℕ → List ℕ → Type 0
Carries text payload = (text ≡ b' ' ∷ payload) ⊎ ((text ≡ payload) × Unspaced payload)

pub length-Carries : (text payload : List ℕ) → Carries text payload → length payload ≤ length text
length-Carries text payload (inl e) = rw e (omega arith)
length-Carries text payload (inr (e, u)) = rw e (omega arith)

strip_space-Unspaced : (payload : List ℕ) → Unspaced payload → strip_space payload ≡ payload
unfolding strip_space strip_prefix
strip_space-Unspaced [] u = refl
strip_space-Unspaced (b ∷ bs) u = elim (Bool-cases (nat_beq b' ' b)) [
  | inl e ↦ absurd (u (ground arith))
  | inr e ↦ rw e refl
]

pub strip_space-Carries :
    (text payload : List ℕ) → Carries text payload → strip_space text ≡ payload
unfolding strip_space strip_prefix
strip_space-Carries text payload (inl e) = rw e refl
strip_space-Carries text payload (inr (e, u)) = ap strip_space e ∙ strip_space-Unspaced payload u

abbrev pub OneLine : List ℕ → Type 0
OneLine = All (λ b. b ≢ newline)

pub drop_cr-cons : (b : ℕ) (bs : List ℕ) → b ≢ carriage_return → drop_cr (b ∷ bs) ≡ b ∷ drop_cr bs
unfolding drop_cr
drop_cr-cons b [] ne = ground arith
drop_cr-cons b (c ∷ bs) ne = refl

pub drop_cr_cr : (bs : List ℕ) → drop_cr (bs ++ carriage_return ∷ []) ≡ bs
unfolding drop_cr
drop_cr_cr [] = refl
drop_cr_cr (b ∷ []) = refl
drop_cr_cr (b ∷ c ∷ bs) = ap (λ r. b ∷ r) (drop_cr_cr (c ∷ bs))

pub drop_cr-line_of :
    (crlf : Bool) (text : List ℕ)
    → drop_cr text ≡ text
    → drop_cr (line_of crlf text) ≡ data_prefix ++ text
unfolding drop_cr
drop_cr-line_of true text e = drop_cr_cr (data_prefix ++ text)
drop_cr-line_of false text e = rw (append-nil text) (
    ap (λ r. b'd' ∷ b'a' ∷ b't' ∷ b'a' ∷ r)
      (drop_cr-cons b':' text (ground arith) ∙ ap (λ r. b':' ∷ r) e))

pub length-line_of : (crlf : Bool) (text : List ℕ) → length text + 5 ≤ length (line_of crlf text)
length-line_of crlf text = omega (arith, length-append text (cr_of crlf))

pub OneLine-append : (xs ys : List ℕ) → OneLine xs → OneLine ys → OneLine (xs ++ ys)
OneLine-append xs ys = All-append (λ b. b ≢ newline) xs ys

pub OneLine-cr_of : (crlf : Bool) → OneLine (cr_of crlf)
OneLine-cr_of true = (ground arith, tt)
OneLine-cr_of false = tt

pub OneLine-line_of : (crlf : Bool) (text : List ℕ) → OneLine text → OneLine (line_of crlf text)
OneLine-line_of crlf text one =
    let rest = OneLine-append text (cr_of crlf) one (OneLine-cr_of crlf) in
    (
      (λ e. absurd (ground arith)),
      (
        (λ e. absurd (ground arith)),
        (
          (λ e. absurd (ground arith)),
          ((λ e. absurd (ground arith)), ((λ e. absurd (ground arith)), rest)),
        ),
      ),
    )
