-- ===== src/Rpc/Obituary/Tests.antt =====
-- One recipient registered twice and another once.
use rsbinder.Prelude.{◌≡◌, refl, true, false, List, [], ◌∷◌}
use rsbinder.Rpc.Obituary.{
  Act, links, unlinks, sends, reports, step, run, start, link_to_death, unlink_to_death,
  take_recipients,
}
use rsbinder.Rpc.Obituary.Reports.{IsAccounted, run-IsAccounted}

abbrev three_links : List Act
three_links =
    links 7
    ∷ links 7
    ∷ links 8
    ∷ unlinks 7
    ∷ sends
    ∷ links 9
    ∷ reports false
    ∷ sends
    ∷ reports true
    ∷ []

run-IsAccounted_example : IsAccounted (run three_links start)
run-IsAccounted_example = run-IsAccounted three_links

called_last : (run three_links start).called ≡ 8 ∷ []
unfolding run step link_to_death unlink_to_death take_recipients
called_last = refl
