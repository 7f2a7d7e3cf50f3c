-- ===== src/Services/Command/Json.antt =====
-- JSON values as services/command_server.hpp and services/command_client.hpp use them, and the
-- argument lists of services/common/command_io.hpp. The jsoncons library is not part of the
-- repository: its values and its encoding are a parameter, and a string is its bytes.
use libprotoserial.Prelude.{
  ℕ, List, [], ◌∷◌, ◌++◌, Bool, ◌||◌, not, Option, none, some, leb, if◌then◌else◌,
}

-- `decode_cbor` of bytes that are no value throws. `get` is `contains` and `operator[]` of an
-- object, and `index` is `operator[]` of an array.
pub record JsonLibrary : Type 1 where
  pub Json : Type 0
  pub decode_cbor : List ℕ → Option Json
  pub encode_cbor : Json → List ℕ
  pub is_object : Json → Bool
  pub is_array : Json → Bool
  pub is_string : Json → Bool
  pub get : List ℕ → Json → Option Json
  pub array_size : Json → ℕ
  pub index : ℕ → Json → Json
  pub as_string : Json → List ℕ
  pub string : List ℕ → Json
  pub number : ℕ → Json
  pub array : List Json → Json
  pub object : List (List ℕ × Json) → Json

-- "cmd"
abbrev pub cmd_key : List ℕ
cmd_key = 99 ∷ 109 ∷ 100 ∷ []

-- "args"
abbrev pub args_key : List ℕ
args_key = 97 ∷ 114 ∷ 103 ∷ 115 ∷ []

-- "err"
abbrev pub err_key : List ℕ
err_key = 101 ∷ 114 ∷ 114 ∷ []

-- "port"
abbrev pub port_key : List ℕ
port_key = 112 ∷ 111 ∷ 114 ∷ 116 ∷ []

-- "object format"
abbrev pub object_format : List ℕ
object_format = 111 ∷ 98 ∷ 106 ∷ 101 ∷ 99 ∷ 116 ∷ 32 ∷ 102 ∷ 111 ∷ 114 ∷ 109 ∷ 97 ∷ 116 ∷ []

-- "args format"
abbrev pub args_format : List ℕ
args_format = 97 ∷ 114 ∷ 103 ∷ 115 ∷ 32 ∷ 102 ∷ 111 ∷ 114 ∷ 109 ∷ 97 ∷ 116 ∷ []

-- "command invalid: "
abbrev pub command_invalid : List ℕ
command_invalid =
    99 ∷ 111 ∷ 109 ∷ 109 ∷ 97 ∷ 110 ∷ 100 ∷ 32 ∷ 105 ∷ 110 ∷ 118 ∷ 97 ∷ 108 ∷ 105 ∷ 100 ∷ 58 ∷ 32
    ∷ []

-- "args invalid"
abbrev pub args_invalid : List ℕ
args_invalid = 97 ∷ 114 ∷ 103 ∷ 115 ∷ 32 ∷ 105 ∷ 110 ∷ 118 ∷ 97 ∷ 108 ∷ 105 ∷ 100 ∷ []

-- "command runtime error"
abbrev pub runtime_error : List ℕ
runtime_error =
    99 ∷ 111 ∷ 109 ∷ 109 ∷ 97 ∷ 110 ∷ 100 ∷ 32 ∷ 114 ∷ 117 ∷ 110 ∷ 116 ∷ 105 ∷ 109 ∷ 101 ∷ 32 ∷ 101
    ∷ 114 ∷ 114 ∷ 111 ∷ 114 ∷ []

module _ (json : JsonLibrary) where
  open json use {Json, is_array, array_size, index, array}

  -- `command_io_parser::at` of a type, by its test and its reading.
  pub at {ℓ} : {A : Type ℓ} → (Json → Bool) → (Json → A) → Json → ℕ → Option A
  at is value query n =
      if not (is_array query) || leb (array_size query) n
      then none
      else if is (index n query)
      then some (value (index n query))
      else none

  -- `command_io_encoder`
  abbrev pub Encoder : Type 0
  Encoder = List Json

  pub push_back : Json → Encoder → Encoder
  push_back val query = query ++ (val ∷ [])

  unfoldable pub to_json : Encoder → Json
  to_json query = array query
