-- ===== src/Groups/Samples.antt =====
-- A group of one test that depends on another by its tag.
use test.Base.{
  ◌≡◌, refl, del, has_prefix, Str, codes, str_eq, List, [], ◌∷◌, Option, some, true, false, has,
  lookup, has_key, insert, add,
}
use test.Graph.Rounds.{RangeLaws}
use test.Paths.{abs, rel}
use test.Groups.{tests_from_glob, expand_dep, add_all, Test, read}
use test.Groups.Expand.{GroupConfig, GroupResult, made, group_from_config}
use test.Groups.Closed.{Closed, Refused, asking, knowing, group_from_config-Closed}
use test.Graph.{add_edge, new_graph, top_sort}

abbrev in_order : List Str → List Str
in_order ks = ks

in_order_laws : RangeLaws in_order
in_order_laws = record { visits = λ k ks. refl; once = λ ks d. d }

abbrev boot : Test
boot = record {
  dependency_id = codes "boot.t";
  tags = codes "boot" ∷ [];
  depends = [];
  expanded_deps = [];
  is_dependency = false;
  points_available = 0;
  points_earned = 0;
}

abbrev locks : Test
locks = record boot {
  dependency_id = codes "sync/lt1.t";
  tags = codes "locks" ∷ [];
  depends = codes "boot" ∷ [];
  points_available = 5;
}

abbrev other : Test
other = record boot { dependency_id = codes "other.t"; tags = [] }

abbrev config : GroupConfig
config = record { use_deps = true; tests = codes "sync/*.t" ∷ []; test_dir = codes "tests" }

-- What the file system has for the one glob that is used.
abbrev files : Str → Option (List Str)
files path = some (codes "/r/tests/sync/lt1.t" ∷ [])

abbrev group_ids : GroupResult → List Str
group_ids (made store group) = group
group_ids (GroupResult.failed errs) = []
group_ids GroupResult.looping = []

group_ids_lem :
    group_ids (
      group_from_config
        (codes "/r")
        files
        in_order
        config
        (read boot ∷ read locks ∷ read other ∷ []))
    ≡ codes "sync/lt1.t" ∷ codes "boot.t" ∷ []
unfolding group_from_config str_eq has has_prefix tests_from_glob abs insert rel expand_dep lookup
    add_all add add_edge new_graph top_sort del has_key
group_ids_lem = refl

group_from_config-Closed_example :
    Closed
      (Refused in_order in_order_laws
        (codes "/r")
        files
        config
        (read boot ∷ read locks ∷ read other ∷ []))
      ((asking in_order in_order_laws
        (codes "/r")
        files
        config
        (read boot ∷ read locks ∷ read other ∷ [])).0)
      (knowing in_order in_order_laws
        (codes "/r")
        files
        config
        (read boot ∷ read locks ∷ read other ∷ []))
      (group_from_config
        (codes "/r")
        files
        in_order
        config
        (read boot ∷ read locks ∷ read other ∷ []))
group_from_config-Closed_example =
    group_from_config-Closed in_order in_order_laws (codes "/r") files config
      (read boot ∷ read locks ∷ read other ∷ []) refl
