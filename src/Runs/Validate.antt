-- ===== src/Runs/Validate.antt =====
-- The `_validate…` functions of srcdiffvisual/runs/store.py, as tests and as texts that pass.
use Prim.Native.Char.{Char, code as code_point}
use src_visual.Common.{
  ◌≡◌, ◌⊎◌, inl, inr, Bool-cases, ℕ, ℤ, pos, negsuc, String, Bool, false, not, ◌&&◌, ◌||◌, ltb, leb,
  ◌==◌, if◌then◌else◌, str_eq, str_length, all_chars, is_hex_digit, Unicode, strip,
}
use src_visual.Runs.Types.{Result, ok, err, value_error}

-- `length(text) = n AND text NOT GLOB '*[^0-9a-f]*'`, and the same test in Python.
unfoldable pub is_hex : ℕ → String → Bool
is_hex n text = str_length text == n && all_chars is_hex_digit text

abbrev pub is_run_id : String → Bool
is_run_id = is_hex 32

abbrev pub is_artifact_id : String → Bool
is_artifact_id = is_hex 32

abbrev pub is_fingerprint : String → Bool
is_fingerprint = is_hex 64

-- `_validate_history_pair`: an integer above zero.
abbrev pub is_history_pair : ℤ → Bool
is_history_pair (pos n) = ltb 0 n
is_history_pair (negsuc n) = false

abbrev pub is_code_character : Unicode → Char → Bool
is_code_character u c = u.is_lower c || u.is_digit c || code_point c == 45

unfoldable pub is_repository_id : Unicode → String → Bool
is_repository_id u text =
    not (str_eq text "") && leb (str_length text) 64 && all_chars (is_code_character u) text

unfoldable pub validated_message : Unicode → String → Result String
validated_message u message =
    let text = strip u message in if str_eq text "" then err value_error else ok text

unfoldable pub validated_diagnostic_code : Unicode → String → Result String
validated_diagnostic_code u code =
    let text = strip u code in
    if str_eq text "" || not (all_chars (is_code_character u) text)
    then err value_error
    else ok text

-- A refused text raises `ValueError`, and nothing else.
pub validated_message-cases :
    (u : Unicode) (message : String)
    → (validated_message u message ≡ err value_error)
      ⊎ ((text : String) × (validated_message u message ≡ ok text))
unfolding validated_message
validated_message-cases u message = elim (Bool-cases (str_eq (strip u message) "")) [
  | inl bad ↦ inl (rw bad)
  | inr good ↦ inr (strip u message, rw good)
]

pub validated_diagnostic_code-cases :
    (u : Unicode) (code : String)
    → (validated_diagnostic_code u code ≡ err value_error)
      ⊎ ((text : String) × (validated_diagnostic_code u code ≡ ok text))
unfolding validated_diagnostic_code
validated_diagnostic_code-cases u code =
    elim (Bool-cases
      (str_eq (strip u code) "" || not (all_chars (is_code_character u) (strip u code)))) [
        | inl bad ↦ inl (rw bad)
        | inr good ↦ inr (strip u code, rw good)
      ]
