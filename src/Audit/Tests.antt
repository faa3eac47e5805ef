-- ===== src/Audit/Tests.antt =====
-- The audit log on small files.
use morpheus_uplink.Base.{
  ◌≡◌, refl, true, false, none, some, List, [], ◌∷◌, ◌++◌, Text, codes, String, ◌==◌, if◌then◌else◌,
  arith, length,
}
use morpheus_uplink.Audit.{
  Options, Request, with_defaults, newline, open_stream, append, prune, tail,
}
use morpheus_uplink.Audit.Retention.Held.{run, Kept}
use morpheus_uplink.Audit.Retention.{run-Kept}
use morpheus_uplink.Audit.Newest.{last_of, all_lines, tail-last_of}

abbrev small : Options
small = record { max_bytes = 5; files = 2; retention = 10 }

abbrev entry : String → Request
entry v = record {
  value = some (codes v);
  opens = true;
  written = length (codes v ++ newline);
  failed = false;
  now = 7;
}

abbrev four : List Request
four = entry "abc" ∷ entry "d" ∷ entry "ef" ∷ entry "x" ∷ []

-- Scans lines that are closed by a newline.
abbrev scan : Text → Text → List Text
scan seen [] = []
scan seen (c ∷ s) = if c == 10 then seen ∷ scan [] s else scan (seen ++ c ∷ []) s

tailed :
    tail (scan []) (run (open_stream (λ i. none) small true 1) [] four).0 9
    ≡ codes "d" ∷ codes "ef" ∷ codes "x" ∷ []
unfolding run tail open_stream append
tailed = refl

pruned : (prune (run (open_stream (λ i. none) small true 1) [] four).0 (λ c. none) 100).1 ≡ 1
unfolding run prune open_stream append
pruned = refl

run-Kept_example :
    let (s, log) = run (open_stream (λ i. none) small true 1) [] four in
    Kept 5 log s × (s.opt ≡ with_defaults small)
run-Kept_example = run-Kept 5 small true 1 four (unfold with_defaults in omega arith) (
  (omega arith, omega arith),
  ((omega arith, omega arith), ((omega arith, omega arith), ((omega arith, omega arith), tt))),
)

tail-last_of_example :
    let s = (run (open_stream (λ i. none) small true 1) [] four).0 in
    tail (scan []) s 2 ≡ last_of 2 (all_lines (scan []) s.disk s.opt.files 0)
tail-last_of_example =
    tail-last_of (scan []) (run (open_stream (λ i. none) small true 1) [] four).0 2
