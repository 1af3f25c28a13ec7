-- ===== src/Examples/Params.antt =====
-- params.ts at concrete inputs.
use chwire.Prelude.{ℕ, ◌≡◌, refl, List, [], ◌∷◌, Option, some}
use chwire.Prelude.Text.{codes}
use chwire.Prelude.Result.{Result, good}
use chwire.Prelude.Scan.{scan, trim, trim_start, trim_end}
use chwire.Compression.{equals}
use chwire.Params.{
  Types, get, set_first, behind_skipped, at_brace, at_character, extract_step, extract_param_types,
  literal_of, assign, serialize_loop, serialize_params, skip_quoted_string, skip_line_comment,
  skip_block_comment, skip_while, quoted_step, while_step, block_comment_step, parse_param,
  parse_type, type_step,
}
use chwire.Params.Declared.{IsSerialized, serialize_params-IsSerialized}
use chwire.Params.Pieces.{Piece, plain, quoted, placeholder, render, declared}
use chwire.Params.Placeholders.{Placeholder, IsPlaceholder}
use chwire.Params.Runs.{closes}

abbrev query : List ℕ
query = codes "SELECT '{x: Int8}', {n: String}"

found : extract_param_types query ≡ (codes "n", codes "String") ∷ []
unfolding extract_param_types extract_step behind_skipped at_brace at_character get set_first
    skip_quoted_string skip_line_comment skip_block_comment skip_while quoted_step while_step
    block_comment_step parse_param parse_type type_step scan trim trim_start trim_end equals
found = refl

abbrev recorded : Types
recorded = (codes "n", codes "Int8") ∷ []

recorded_n : get (codes "n") recorded ≡ some (codes "Int8")
unfolding get
recorded_n = refl

abbrev as_text : List ℕ → List ℕ
as_text value = value

abbrev as_literal : List ℕ → List ℕ → Result (Option (List ℕ))
as_literal type value = good (some value)

abbrev given : List (List ℕ × List ℕ)
given = (codes "n", codes "5") ∷ (codes "m", codes "6") ∷ []

serialized :
    serialize_params as_text as_literal query given ≡ good ((codes "n", some (codes "5")) ∷ [])
unfolding serialize_params serialize_loop literal_of assign extract_param_types extract_step
    behind_skipped at_brace at_character get set_first skip_quoted_string skip_line_comment
    skip_block_comment skip_while quoted_step while_step block_comment_step parse_param parse_type
    type_step scan trim trim_start trim_end equals
serialized = refl

-- `SELECT {n: String}, '{x}'`, as its writer sees it
abbrev n_string : Placeholder
n_string = record { first = b'n'; others = []; spaces = 1; start = b'S'; tail = codes "tring" }

abbrev pieces : List Piece
pieces =
    plain b'S' ∷ plain b' ' ∷ placeholder n_string ∷ plain b',' ∷ quoted b'\'' (codes "{x}") ∷ []

written : render pieces ≡ codes "S {n: String},'{x}'"
written = refl

n_string-IsPlaceholder : IsPlaceholder n_string
unfolding closes trim trim_start trim_end
n_string-IsPlaceholder = record { word = (refl, tt); begins = refl; whole = refl; balanced = refl }

serialize_params-IsSerialized_example :
    IsSerialized as_text as_literal
      (λ name. declared name pieces)
      given
      (serialize_params as_text as_literal (render pieces) given)
serialize_params-IsSerialized_example =
    serialize_params-IsSerialized as_text as_literal pieces given
      (refl, (refl, (n_string-IsPlaceholder, (refl, (refl, (refl, (refl, (refl, tt))), tt, tt)))))

abbrev with_proto : List (List ℕ × List ℕ)
with_proto = (codes "__proto__", codes "7") ∷ (codes "n", codes "5") ∷ []

abbrev both_types : Types
both_types = (codes "__proto__", codes "String") ∷ (codes "n", codes "String") ∷ []

proto_lost :
    serialize_loop as_text as_literal both_types with_proto
    ≡ good ((codes "n", some (codes "5")) ∷ [])
unfolding serialize_loop literal_of assign get equals
proto_lost = refl
