-- ===== src/Templates/Samples.antt =====
-- Templates that refer to each other, one of them in a circle.
use test.Base.{
  suc, ◌≡◌, refl, true, List, [], ◌∷◌, Option, some, Str, codes, str_eq, has, Dict, lookup,
}
use test.Grading.{ExpectedOutputLine, opt_no}
use test.Templates.{
  TemplOutputLine, CommandTemplate, Expanded, ok, error, cycle, expand_output, fix_template,
}
use test.Templates.Termination.{expand_output-total}
use test.Templates.Meaning.{StandsFor, expand_output-StandsFor}

program : Unit {0}
unfolding expand_output fix_template lookup has str_eq
program = tt

abbrev plain : Str → List Str → Option Str
plain t args = some t

abbrev line : Str → Str → TemplOutputLine
line text external = record { text = text; trusted = codes "true"; external = external }

abbrev template : Str → List TemplOutputLine → CommandTemplate
template name output = record {
  name = name;
  output = output;
  input = [];
  panic = opt_no;
  times_out = opt_no;
}

abbrev single : CommandTemplate
single = template (codes "mat") (line (codes "passed") (codes "false") ∷ [])

abbrev double : CommandTemplate
double =
    template (codes "double")
      (line (codes "mat") (codes "true") ∷ line (codes "mat") (codes "true") ∷ [])

abbrev circular : CommandTemplate
circular = template (codes "c") (line (codes "c") (codes "true") ∷ [])

abbrev known : Dict CommandTemplate
known = (codes "mat", single) ∷ (codes "double", double) ∷ (codes "c", circular) ∷ []

abbrev passed : ExpectedOutputLine
passed = record { text = codes "passed"; trusted = true; key_name = codes "mat" }

double_lines :
    expand_output plain known [] 4 [] (codes "double") double ≡ some (ok (passed ∷ passed ∷ []))
unfolding program
double_lines = refl

circular_lines : expand_output plain known [] 4 [] (codes "c") circular ≡ some (error cycle)
unfolding program
circular_lines = refl

success_lines :
    (fix_template (template (codes "sy1") [])).output
    ≡ line (codes "sy1: SUCCESS") (codes "false") ∷ []
unfolding program
success_lines = refl

expand_output-total_example :
    (x : Expanded (List ExpectedOutputLine)) × (expand_output plain known []
        (suc 3)
        []
        (codes "c")
        circular
      ≡ some x)
unfolding program
expand_output-total_example = expand_output-total plain known [] (codes "c") circular circular refl

expand_output-StandsFor_example :
    StandsFor plain known [] (codes "double") double.output (passed ∷ passed ∷ [])
unfolding program
expand_output-StandsFor_example =
    expand_output-StandsFor plain known [] 4 [] (codes "double") double (passed ∷ passed ∷ []) refl
