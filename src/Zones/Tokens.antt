-- ===== src/Zones/Tokens.antt =====
-- The tokens: who holds a zone, who may enter it, and the operations outside of the cycle.
use amr_fleet_system.Prelude.{
  ℕ, ℤ, pos, ◌+ℤ◌, ◌*ℤ◌, ltb_ℤ, ltb, Bool, true, false, not, ◌&&◌, ◌||◌, ◌==◌, Option, none, some,
  List, [], ◌∷◌, ◌++◌, length, filter, all, member, if◌then◌else◌,
}
use amr_fleet_system.Prelude.Dict.{Dict, lookup, contains, insert, keys}
use amr_fleet_system.Prelude.Sorting.{sorted_by}

-- `Direction`
abbrev pub Direction : Type 0
Direction = Option (ℤ × ℤ)

pub record TokenRequest : Type 0 where
  pub robot_id : ℕ
  pub zones : List ℕ
  pub directions : Dict Direction
  pub priority : ℤ
  pub deadline : Option ℤ

pub record TokenDecision : Type 0 where
  pub granted : Bool
  pub zones : List ℕ
  pub blockers : List ℕ
  pub waiting_s : ℤ
  pub bypassed : ℕ

pub record Wait : Type 0 where
  pub zones : List ℕ
  pub since : ℤ
  pub seq : ℕ
  pub bypassed : ℕ

abbrev pub Holders : Type 0
Holders = Dict (Dict Direction)

pub record ZoneTokenManager : Type 0 where
  pub max_bypass : ℕ
  pub same_direction_cos : ℤ
  pub same_dir : Dict Bool
  pub holders : Holders
  -- pairs of a robot and a zone
  pub entered : List (ℕ × ℕ)
  pub waits : Dict Wait
  pub seq : ℕ
  pub grant_log : List (ℤ × ℕ × List ℕ)

-- `ZoneTokenManager(...)`; a negative `max_bypass`, which is refused, is no number here.
abbrev pub new_manager : Dict Bool → ℕ → ℤ → ZoneTokenManager
new_manager same_direction max_bypass cos = record {
  max_bypass = max_bypass;
  same_direction_cos = cos;
  same_dir = same_direction;
  holders = [];
  entered = [];
  waits = [];
  seq = 0;
  grant_log = [];
}

module _ {ℓ} {A : Type ℓ} where
  abbrev pub get_or : Option A → A → A
  get_or none d = d
  get_or (some a) d = a

  -- `del d[k]`, or `d.pop(k, None)`
  abbrev pub without : ℕ → Dict A → Dict A
  without k [] = []
  without k ((i, a) ∷ d) = if k == i then without k d else (i, a) ∷ without k d

-- the set of entered pairs

abbrev pub same_pair : ℕ × ℕ → ℕ × ℕ → Bool
same_pair p q = p.0 == q.0 && p.1 == q.1

abbrev pub has_pair : ℕ × ℕ → List (ℕ × ℕ) → Bool
has_pair p [] = false
has_pair p (q ∷ qs) = same_pair p q || has_pair p qs

abbrev pub add_pair : ℕ × ℕ → List (ℕ × ℕ) → List (ℕ × ℕ)
add_pair p qs = if has_pair p qs then qs else p ∷ qs

abbrev pub discard_pair : ℕ × ℕ → List (ℕ × ℕ) → List (ℕ × ℕ)
discard_pair p qs = filter (λ q. not (same_pair p q)) qs

-- queries

abbrev pub holders_in : ℕ → Holders → Dict Direction
holders_in zone hs = get_or (lookup zone hs) []

-- The direction with which a robot holds a zone, if it does.
abbrev pub held : ℕ → ℕ → Holders → Option Direction
held zone robot hs = lookup robot (holders_in zone hs)

abbrev pub holds : ℕ → ℕ → Holders → Bool
holds zone robot hs = contains robot (holders_in zone hs)

abbrev pub sorted_ids : List ℕ → List ℕ
sorted_ids ids = sorted_by (λ k. pos k ∷ []) ids

unfoldable pub holders_of : ℕ → ZoneTokenManager → List ℕ
holders_of zone m = sorted_ids (keys (holders_in zone m.holders))

unfoldable pub held_by : ℕ → ZoneTokenManager → List ℕ
held_by robot m = sorted_ids (filter (λ z. holds z robot m.holders) (keys m.holders))

abbrev pub zones_of_pairs : List (ℕ × ℕ) → List ℕ
zones_of_pairs [] = []
zones_of_pairs ((r, z) ∷ ps) = z ∷ zones_of_pairs ps

unfoldable pub entered_by : ℕ → ZoneTokenManager → List ℕ
entered_by robot m =
    sorted_ids (zones_of_pairs (filter (λ p. p.0 == robot && holds p.1 robot m.holders) m.entered))

-- compatibility

abbrev pub dot : ℤ × ℤ → ℤ × ℤ → ℤ
dot a b = a.0 *ℤ b.0 +ℤ a.1 *ℤ b.1

-- Whether two directions are known and alike.
abbrev pub alike : ℤ → Direction → Direction → Bool
alike cos none e = false
alike cos (some a) none = false
alike cos (some a) (some b) = not (ltb_ℤ (dot a b) cos)

abbrev pub all_alike : ℤ → Dict Direction → Direction → Bool
all_alike cos [] e = true
all_alike cos ((r, d) ∷ others) e = alike cos d e && all_alike cos others e

abbrev pub is_empty : Dict Direction → Bool
is_empty [] = true
is_empty (o ∷ os) = false

abbrev pub follows : ℕ → Dict Bool → Bool
follows zone same_dir = get_or (lookup zone same_dir) false

-- `_compatible`
unfoldable pub compatible : Dict Bool → ℤ → Holders → ℕ → ℕ → Direction → Bool
compatible same_dir cos hs zone robot e =
    let others = without robot (holders_in zone hs) in
    is_empty others || (follows zone same_dir && all_alike cos others e)

-- `_blockers`
unfoldable pub blockers_of : Holders → ℕ → ℕ → List ℕ
blockers_of hs zone robot = keys (without robot (holders_in zone hs))

-- `self._holders.setdefault(zone, {})[robot] = direction`
abbrev pub put : ℕ → ℕ → Direction → Holders → Holders
put zone robot e hs = insert zone (insert robot e (holders_in zone hs)) hs

abbrev pub direction_in : ℕ → Dict Direction → Direction
direction_in zone ds = get_or (lookup zone ds) none

abbrev pub put_all : List ℕ → ℕ → Dict Direction → Holders → Holders
put_all [] robot ds hs = hs
put_all (z ∷ zs) robot ds hs = put_all zs robot ds (put z robot (direction_in z ds) hs)

-- `grant_log.append`: the log holds the last thousand entries.
abbrev pub log_grant : ℤ × ℕ × List ℕ → List (ℤ × ℕ × List ℕ) → List (ℤ × ℕ × List ℕ)
log_grant g log =
    let longer = log ++ g ∷ [] in
    if ltb 1000 (length longer) then elim longer [ [] ↦ [] | oldest ∷ rest ↦ rest ] else longer

-- `dict.fromkeys(zones)`: each zone once, at its first place
abbrev pub unique_zones : List ℕ → List ℕ → List ℕ
unique_zones seen [] = []
unique_zones seen (z ∷ zs) =
    let more = unique_zones (z ∷ seen) zs in
    if member z seen then unique_zones seen zs else z ∷ more

-- The known zones that a robot does not hold.
abbrev pub missing : Dict Bool → Holders → ℕ → List ℕ → List ℕ
missing same_dir hs robot zones = filter (λ z. contains z same_dir && not (holds z robot hs)) zones

-- `reserve`
unfoldable pub reserve :
    ℤ → ℕ → List ℕ → Dict Direction → ZoneTokenManager → Bool × ZoneTokenManager
unfolding compatible
reserve now robot zones ds m =
    let need = missing m.same_dir m.holders robot (unique_zones [] zones) in
    let fits =
      all (λ z. compatible m.same_dir m.same_direction_cos m.holders z robot (direction_in z ds))
        need in
    if not fits then (false, m) else if length need == 0 then (true, m) else (
      true,
      record m {
        holders = put_all need robot ds m.holders;
        grant_log = log_grant (now, robot, need) m.grant_log;
      },
    )

-- `forget`
abbrev pub without_robot : ℕ → Holders → Holders
without_robot robot [] = []
without_robot robot ((z, h) ∷ hs) = (z, without robot h) ∷ without_robot robot hs

unfoldable pub forget : ℕ → ZoneTokenManager → ZoneTokenManager
forget robot m = record m {
  holders = without_robot robot m.holders;
  entered = filter (λ p. not (p.0 == robot)) m.entered;
  waits = without robot m.waits;
}

-- `set_zones`
abbrev pub known_zones : Dict Bool → Holders → Holders
known_zones same_dir [] = []
known_zones same_dir ((z, h) ∷ hs) =
    let rest = known_zones same_dir hs in if contains z same_dir then (z, h) ∷ rest else rest

unfoldable pub set_zones : Dict Bool → ZoneTokenManager → ZoneTokenManager
set_zones same_direction m = record m {
  same_dir = same_direction;
  holders = known_zones same_direction m.holders;
  entered = filter (λ p. contains p.1 same_direction) m.entered;
}
