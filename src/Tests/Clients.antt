-- ===== src/Tests/Clients.antt =====
-- The client at concrete results.
use husky_ci.Base.{◌+◌, ◌<◌, ◌≡◌, ◌↔◌, refl, [], ◌∷◌, false}
use husky_ci.Types.{HuskyResults, Analysis, no_results, no_output, no_vulnerability}
use husky_ci.Analysis.Start.{new_analysis}
use husky_ci.Client.Summary.{total_summary, exit_code}
use husky_ci.Client.Exit.{blocks_iff_serious}

abbrev with_medium : HuskyResults
with_medium = record no_results {
  gosec_output = record no_output { medium_vulns = no_vulnerability ∷ [] };
}

blocks_iff_serious_example :
    (exit_code (total_summary with_medium).found_vuln (total_summary with_medium).found_info ≡ 190)
    ↔ (0 < (total_summary with_medium).medium_vuln + (total_summary with_medium).high_vuln)
blocks_iff_serious_example = blocks_iff_serious with_medium

blocked :
    exit_code (total_summary with_medium).found_vuln (total_summary with_medium).found_info ≡ 190
unfolding total_summary exit_code
blocked = refl

abbrev running : Analysis
running = new_analysis "rid-1" (record {
  url = "https://github.com/a/b.git";
  branch = "main";
  language_exclusions = λ language. false;
  enry_output = "";
})

abbrev silent : Analysis
silent = record running { status = "" }
