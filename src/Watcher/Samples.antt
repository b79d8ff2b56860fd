-- ===== src/Watcher/Samples.antt =====
-- One app that restarts when its program is written.
use ooth.Prelude.{◌≡◌, refl, true, false, none, [], ◌∷◌, inl}
use ooth.Prelude.Texts.{codes, text_eq}
use ooth.Config.App.{App}
use ooth.Config.Sources.{new_app}
use ooth.Watcher.{
  Paths, WatchEvent, modified, created, file_event, changes_directory, some_parent, rule_matches,
  affects, Watching, happens, settles, watch,
}
use ooth.Watcher.Requests.{IsDelivered, watch-IsDelivered, received, watch-received}

-- Globs are paths, and each path but the empty one is a file below it.
abbrev paths : Paths
paths = record { clean = λ s. s; dir = λ s. []; match_glob = text_eq }

abbrev app : App
app = record new_app {
  name = codes "web";
  restart_on = record { glob = codes "/web"; events = codes "write" ∷ [] } ∷ [];
}

abbrev start : Watching
start = record {
  initial = record {
    apps = (codes "web", app) ∷ [];
    roots = [];
    cgroup = [];
    resources = record { max_cpu = 0; min_available_memory = 0 };
  };
  restarts = [];
  lost = 0;
}

abbrev written : WatchEvent
written = record { path = codes "/web"; types = modified ∷ [] }

written-affects : affects paths written app ≡ true
unfolding affects rule_matches file_event changes_directory some_parent
written-affects = refl

-- Another kind of event is not asked for.
created_elsewhere : affects paths (record { path = codes "/web"; types = created ∷ [] }) app ≡ false
unfolding affects rule_matches file_event changes_directory some_parent
created_elsewhere = refl

watch-IsDelivered_example :
    IsDelivered (codes "web") (watch paths start (happens written ∷ settles 0 none false ∷ [])).1
watch-IsDelivered_example =
    watch-IsDelivered paths start written [] 0 none false (codes "web") app (inl refl)
      written-affects

watch-received_example :
    (watch paths start (happens written ∷ settles 0 none false ∷ [])).0.initial
    ≡ received start.initial (watch paths start (happens written ∷ settles 0 none false ∷ [])).1
watch-received_example = watch-received paths (happens written ∷ settles 0 none false ∷ []) start
