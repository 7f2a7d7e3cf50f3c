-- ===== src/Bytes/Tests.antt =====
-- The container of data/container.hpp on small contents.
use libprotoserial.Prelude.{ℕ, ◌≡◌, List, [], ◌∷◌, ok, arith}
use libprotoserial.Bytes.{Bytes, push_front, push_back, shrink}
use libprotoserial.Bytes.Layout.{Represents, laid_out}
use libprotoserial.Bytes.Construct.{of_range, of_list, of_string, of_range-of_list}
use libprotoserial.Bytes.Spec.{
  Gives, laid_out-Represents, push_front-Represents, push_back-Represents, shrink-Represents,
}

-- Three bytes with one spare byte in front and one behind, and two bytes with no room.
abbrev three : List ℕ
three = 1 ∷ 2 ∷ 3 ∷ []

abbrev roomy : Bytes
roomy = laid_out 1 three 1

roomy-Represents : Represents roomy three
roomy-Represents = laid_out-Represents 1 three 1 (omega arith)

abbrev two : List ℕ
two = 8 ∷ 9 ∷ []

abbrev tight : Bytes
tight = laid_out 0 two 0

tight-Represents : Represents tight two
tight-Represents = laid_out-Represents 0 two 0 (omega arith)

push_front-Represents_example : Gives (push_front roomy tight) (8 ∷ 9 ∷ 1 ∷ 2 ∷ 3 ∷ [])
push_front-Represents_example =
    push_front-Represents roomy-Represents tight-Represents (omega arith)

push_back-Represents_example : Gives (push_back roomy tight) (1 ∷ 2 ∷ 3 ∷ 8 ∷ 9 ∷ [])
push_back-Represents_example = push_back-Represents roomy-Represents tight-Represents (omega arith)

shrink-Represents_example : Gives (shrink 1 1 roomy) (2 ∷ [])
shrink-Represents_example = shrink-Represents 1 1 roomy-Represents (omega arith)

of_range-of_list_example :
    (of_range three ≡ of_list three)
    × (of_string three ≡ of_list three)
    × (of_list three ≡ ok (laid_out 0 three 0))
of_range-of_list_example = of_range-of_list three (omega arith)
