-- ===== src/Examples/Terms.antt =====
-- Runs of the lexical theorems: a typing error in a term.
use mathlib.Core.Logic.{◌↔◌}
use kronroe.Common.{◌≡◌, true}
use kronroe.Common.Text.{codes}
use kronroe.Lexical.{is_edit_distance_le_one}
use kronroe.Lexical.Near.{Near, is_edit_distance_le_one_lem}

is_edit_distance_le_one_example :
    (is_edit_distance_le_one (codes "ailce") (codes "alice") ≡ true)
    ↔ Near (codes "ailce") (codes "alice")
is_edit_distance_le_one_example = is_edit_distance_le_one_lem (codes "ailce") (codes "alice")
