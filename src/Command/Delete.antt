-- ===== src/Command/Delete.antt =====
-- `doDelete` of src/runw.cpp.
use runw.Common.{
  text_eq, ◌≡◌, Bool, true, false, ◌||◌, none, List, [], ◌∷◌, ◌++◌, Text, if◌then◌else◌, arith,
}
use runw.Disk.{Disk, Os, is_dir, is_below, remove_all, clear_cache}
use runw.Disk.Siblings.{is_name, siblings}
use runw.Command.{Exit, success, failure, Event, cache_cleared, World, emit_event, container_root}

-- After the removal: an error counts unless the deletion is forced. Then the compiled code goes too.
unfoldable pub after_removal : Os → Bool → Text → World → Disk × Bool → Exit × World
unfolding clear_cache
after_removal os force id w (d, done) =
    if done || force
    then (success, emit_event (cache_cleared id) (record w { disk = clear_cache os id d }))
    else (failure, record w { disk = d })

unfoldable pub do_delete : Os → Text → Text → Bool → World → Exit × World
unfolding after_removal
do_delete os root id force w =
    if is_dir (w.disk.node (container_root root id)) || force
    then after_removal os force id w (remove_all os w.disk (container_root root id))
    else (failure, w)

-- A deletion that succeeds without force leaves nothing at the container's directory or below it.
pub do_delete_inside :
    (os : Os) (root id : Text) (w : World) (q : Text)
    → (do_delete os root id false w).0 ≡ success
    → is_below (container_root root id) q ≡ true
    → (do_delete os root id false w).1.disk.node q ≡ none
unfolding do_delete remove_all
do_delete_inside os root id w q h below = ground arith

-- On every outcome, forced or not, a deletion leaves the directory of another container under the same
-- root, and all below it, as they were, as far as the engine's `Cache::clear` leaves them. The ids are
-- two different names of directory entries; paths are texts, and links are not followed.
pub do_delete_others :
    (os : Os) (root id other : Text) (force : Bool) (w : World) (q : Text)
    → is_name id ≡ true
    → is_name other ≡ true
    → text_eq id other ≡ false
    → is_below (container_root root other) q ≡ true
    → ((d : Disk) → os.clears d id q ≡ false)
    → (do_delete os root id force w).1.disk.node q ≡ w.disk.node q
unfolding do_delete remove_all clear_cache
do_delete_others os root id other force w q hid hother differ below kept =
    let apart : is_below (container_root root id) q ≡ false =
      siblings root id other q hid hother differ below in
    ground (arith, kept (remove_all os w.disk (container_root root id)).0)

abbrev pub cleared : Text → List Event → Exit → List Event
cleared id events success = events ++ cache_cleared id ∷ []
cleared id events failure = events

-- A forced deletion always succeeds. Whether forced or not, a deletion sends no signal: all that it
-- does besides removing files is to clear the cache of compiled code, when it succeeds.
pub do_delete_events :
    (os : Os) (root id : Text) (force : Bool) (w : World)
    → ((do_delete os root id true w).0 ≡ success)
      × ((do_delete os root id force w).1.events
          ≡ cleared id w.events (do_delete os root id force w).0)
unfolding do_delete remove_all
do_delete_events os root id force w = ground arith
