-- ===== src/Reconcile/Refresh.antt =====
-- What reconcile does to the chutes before its loop over the deployments: the comparison with the
-- validators' chutes, and the update of the images, of src/chutes-miner/chutes_miner/gepetto.py.
--
-- The digests of the code differ exactly when one of the texts that go into them does, and lists of
-- GPU models are in the same order.
use chutes_miner.Prelude.{
  Bool, List, Option, [], any, false, find?, if◌then◌else◌, is_key, is_some, map, none, not, some,
  true, ◌&&◌, ◌==◌, ◌∷◌,
}
use chutes_miner.Schema.{Chute, Key}
use chutes_miner.State.{State}
use chutes_miner.Action.{Action, modify_db, pure, return, when, ◌>>◌}
use chutes_miner.Launch.{Controller}
use chutes_miner.Upkeep.{RemoteChute, chute_updated}

-- A chute of a validator, as reconcile has it.
pub record RemoteEntry : Type 0 where
  pub validator : Key
  pub chute_id : Key
  pub image_id : Option Key
  pub remote : RemoteChute

abbrev pub same_list : List Key → List Key → Bool
same_list [] [] = true
same_list (x ∷ xs) (y ∷ ys) = (x == y) && same_list xs ys
same_list _ _ = false

abbrev pub same_option : Option Key → Option Key → Bool
same_option none none = true
same_option (some x) (some y) = x == y
same_option _ _ = false

abbrev pub same_flag : Bool → Bool → Bool
same_flag true b = b
same_flag false b = not b

-- Whether the two digests agree.
abbrev pub is_current : RemoteChute → Chute → Bool
is_current r c =
    (c.name == r.name)
    && ((c.image == r.image)
        && ((c.code == r.code)
            && ((c.ref_str == r.ref_str)
                && (same_flag c.preemptible r.preemptible
                    && ((c.gpu_count == r.gpu_count)
                        && (same_option c.chutes_version r.chutes_version
                            && same_list c.supported_gpus r.supported_gpus))))))

-- An exception of chute_updated is swallowed.
abbrev pub swallowed : Action (Unit {0}) → Action (Unit {0})
swallowed m s = (return tt, (m s).1)

module _ (c : Controller) (fetch : State → (chute_id version : Key) → Option RemoteChute) where
  -- One chute of a validator against the row that was read at the start.
  unfoldable pub refresh_chute : (row : Option Chute) → RemoteEntry → Action (Unit {0})
  refresh_chute none entry = pure tt
  refresh_chute (some row) entry =
      when (not (is_current entry.remote row))
        (swallowed (chute_updated c fetch entry.chute_id entry.remote.version entry.validator))

  -- The loop over remote_chutes, with the rows as they were.
  unfoldable pub refresh_chutes : List Chute → List RemoteEntry → Action (Unit {0})
  refresh_chutes rows [] = pure tt
  refresh_chutes rows (entry ∷ entries) =
      refresh_chute
        (find? (λ row. (row.validator == entry.validator) && (row.chute_id == entry.chute_id)) rows)
        entry
      >> refresh_chutes rows entries

-- An entry of image_updates: the image's name with its tag and patch version, as one text.
pub record ImageUpdate : Type 0 where
  pub image_id : Key
  pub image : Key
  pub chutes_version : Option Key

-- Whether chute_map has the chute under the image.
abbrev pub is_of_image : List RemoteEntry → (image_id chute_id : Key) → Bool
is_of_image entries i c =
    any (λ (e : RemoteEntry). is_key e.image_id i && (e.chute_id == c)) entries

abbrev pub has_image : Option Key → (chute_id : Key) → List RemoteEntry → Bool
has_image none c entries = false
has_image (some i) c entries = is_of_image entries i c

abbrev pub image_update : List ImageUpdate → Option Key → Option ImageUpdate
image_update updates none = none
image_update updates (some i) = find? (λ (u : ImageUpdate). u.image_id == i) updates

-- The update of the first image, in the order in which chute_map got them, that has the chute and
-- an update.
unfoldable pub first_update :
    List ImageUpdate
    → (entries0 : List RemoteEntry) → List RemoteEntry
    → (chute_id : Key) → Option ImageUpdate
first_update updates entries0 [] c = none
first_update updates entries0 (entry ∷ entries) c =
    let later = first_update updates entries0 entries c in
    let own = image_update updates entry.image_id in
    if has_image entry.image_id c entries0 && is_some own then own else later

abbrev pub find_update : List ImageUpdate → List RemoteEntry → (chute_id : Key) → Option ImageUpdate
find_update updates entries = first_update updates entries entries

abbrev pub with_image : Option ImageUpdate → Chute → Chute
with_image none row = row
with_image (some u) row = record row { image = u.image; chutes_version = u.chutes_version }

unfoldable pub update_images : List ImageUpdate → List RemoteEntry → Action (Unit {0})
update_images updates entries = modify_db (λ db. record db {
  chutes =
      map (λ (row : Chute). with_image (find_update updates entries row.chute_id) row) db.chutes;
})
