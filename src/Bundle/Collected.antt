-- ===== src/Bundle/Collected.antt =====
-- What a successful Bundle::load of src/bundle.cpp collects from the arrays of mounts and namespaces.
use runw.Common.{◌≡◌, true, some, ◌++◌, Text}
use runw.Json.{Simdjson, ◌>>=◌}
use runw.Loader.Adds.{from_ok}
use runw.Bundle.{Bundle}
use runw.Bundle.Load.{load}
use runw.Bundle.Mounts.{mounts_of, load-mounts_of}
use runw.Bundle.Namespaces.{namespaces_of, load-namespaces_of}

-- A load that succeeds appends to the mounts just what the "mounts" arrays of the configuration
-- describe, and to the namespaces what the "namespaces" arrays in its "linux" objects describe, in
-- their order, whatever else it has: for each element the last texts that its object gives, and all
-- options of a mount.
pub load-collected :
    (S : Simdjson) (text : Text) (b : Bundle)
    → (load S (some text) b).1 ≡ true
    → ((load S (some text) b).0.mounts
        ≡ b.mounts ++ from_ok (S.parse text >>= S.get_object) (mounts_of S))
      × ((load S (some text) b).0.namespaces
          ≡ b.namespaces ++ from_ok (S.parse text >>= S.get_object) (namespaces_of S))
load-collected S text b h = (load-mounts_of S text b h, load-namespaces_of S text b h)
