-- ===== src/Tests/Patterns.antt =====
-- Patterns that stand in for the four of the program: a URL of a file is one whose rest is plain, and
-- one repository is found wherever its URL occurs.
use husky_ci.Base.{String, ◌==◌, not, none, some, if◌then◌else◌, contains}
use husky_ci.Input.{Patterns}

abbrev pub repo_url : String
repo_url = "https://github.com/a/b.git"

abbrev pub patterns : Patterns
patterns = record {
  find_file = λ url. if url == "file://rid-1" then some url else none;
  find_git = λ url. if contains url repo_url then some repo_url else none;
  is_branch = λ branch. not (contains branch ";");
  is_rid = λ rid. not (contains rid "/");
}
