-- ===== src/Config/Turns.antt =====
-- The choice of a Docker host for one analysis after another, with the counter of MongoDB: the
-- calls of `FindAndModifyDockerAPIAddresses` and `FormatDockerHostAddress` in
-- api/analysis/analysis.go.
use husky_ci.Base.{
  ℕ, zero, suc, ◌+◌, ◌≡◌, pos, String, ◌==◌, Option, some, List, [], ◌∷◌, if◌then◌else◌,
}
use husky_ci.Base.Reply.{Reply, found, refused}
use husky_ci.Types.{DockerAddresses}
use husky_ci.Database.Rows.{Value, number, texts, Row}
use husky_ci.Database.Mongo.{Collection, everything, operator, find_and_modify_addresses}
use husky_ci.Config.Env.{DockerHostsConfig}
use husky_ci.Config.Hosts.{Net, format_docker_host_address}
use husky_ci.Config.Rotation.{at_index}

-- The document of the collection of addresses.
abbrev pub addresses : ℕ → List String → Row
addresses k hosts = ("currentHostIndex", number (pos k)) ∷ ("hostList", texts hosts) ∷ []

-- What `$inc` documents: the number of the field, raised by the amount.
abbrev raised : ℕ → Value → Value
raised amount (number (pos k)) = number (pos (k + amount))
raised amount v = v

abbrev pub increased : String → ℕ → Row → Row
increased name amount [] = []
increased name amount ((key, v) ∷ row) =
    (key, if key == name then raised amount v else v) ∷ increased name amount row

-- The documented behaviour of `FindOneAndUpdate` with `$inc` and `ReturnDocument(After)` on the one
-- document of the collection, and of `Decode`.
pub record IncLaws {S : Type 0} (db : Collection S) (decode : Row → Reply DockerAddresses)
    (document_of : S → Row) : Type 0 where
  pub increments :
      (name : String) (amount : ℕ) (s : S)
      → (s' : S) × (db.find_one_and_update "dockerAPIAddresses" everything
            (operator "$inc" ((name, number (pos amount)) ∷ []))
            s
          ≡ (found (increased name amount (document_of s)), s'))
        × (document_of s' ≡ increased name amount (document_of s))
  pub decodes :
      (k : ℕ) (hosts : List String) → decode (addresses k hosts) ≡ found (at_index k hosts)

module _ {S : Type 0} (db : Collection S) (decode : Row → Reply DockerAddresses) (n : Net)
    (config : Option DockerHostsConfig) where
  abbrev pub host_of : Reply DockerAddresses → Option (Reply String)
  host_of (refused err) = some (refused err)
  host_of (found a) = format_docker_host_address n a config

  -- The choice for one analysis, with the state after it.
  unfoldable pub next_host : S → Option (Reply String) × S
  next_host s = let (r, s') = find_and_modify_addresses db decode s in (host_of r, s')

  -- The state after so many choices.
  unfoldable pub after_choices : ℕ → S → S
  unfolding next_host
  after_choices zero s = s
  after_choices (suc j) s = after_choices j (next_host s).1
