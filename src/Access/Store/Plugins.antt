-- ===== src/Access/Store/Plugins.antt =====
-- phira-mp-plus-server/src/extensions.rs: what is left when the fields of a plugin are removed.
use phira_mp_plus.Common.{
  ℤ, ◌≡◌, refl, List, [], ◌∷◌, Bool, false, ◌||◌, none, some, if◌then◌else◌, Eq, arith, int_eq,
  ◌&&◌, Bool-cases, inl, inr, ap, length, ℕ, pos,
}
use phira_mp_plus.Common.Maps.{get, put, remove, get-put, get-remove}
use phira_mp_plus.Wire.Text.{Text, beq_text, beq_text_iff, text_eq}
use phira_mp_plus.Access.Store.{
  ExtensionDataStore, ExtensionField, get_user_extra, get_room_extra, within_entry, or_default,
  remove_from_all, keys_of_plugin, remove_fields, remove_fields_by_plugin, room_key, set_room_extra,
  register_room_field, register_user_field,
}

unfoldable pub has_text : Text → List Text → Bool
has_text key [] = false
has_text key (k ∷ ks) = beq_text k key || has_text key ks

within_entry-remove_from_all :
    {K : Type 0} ⦃e : Eq K⦄ (j : K) (key removed : Text) (m : List (K × List (Text × Text)))
    → within_entry key (get j (remove_from_all removed m))
      ≡ (if beq_text removed key then none else within_entry key (get j m))
unfolding get remove_from_all
within_entry-remove_from_all j key removed [] = ground arith
within_entry-remove_from_all ⦃e = e⦄ j key removed ((k, values) ∷ m) =
    ground (arith, get-remove key removed values, within_entry-remove_from_all j key removed m)

-- The removal of fields takes from every user and every room the values under the removed names.
remove_fields_lem :
    (keys : List Text) (user_id : ℤ) (room_id key : Text) (s : ExtensionDataStore)
    → (get_user_extra user_id key (remove_fields keys s)
        ≡ (if has_text key keys then none else get_user_extra user_id key s))
      × (get_room_extra room_id key (remove_fields keys s)
          ≡ (if has_text key keys then none else get_room_extra room_id key s))
unfolding remove_fields get_user_extra get_room_extra has_text
remove_fields_lem [] user_id room_id key s = (refl, refl)
remove_fields_lem (k ∷ keys) user_id room_id key s =
    let shorter : ExtensionDataStore = record s {
      fields = remove k (s.fields);
      user_data = remove_from_all k (s.user_data);
      room_data = remove_from_all k (s.room_data);
    } in
    ground (
      arith,
      remove_fields_lem keys user_id room_id key shorter,
      within_entry-remove_from_all user_id key k (s.user_data),
      within_entry-remove_from_all room_id key k (s.room_data),
    )

-- The removal of a plugin's fields takes from every user and every room exactly the values under the names
-- of its fields.
pub remove_fields_by_plugin-extras :
    (plugin : Text) (user_id : ℤ) (room_id key : Text) (s : ExtensionDataStore)
    → let removed = remove_fields_by_plugin plugin s in
      (get_user_extra user_id key removed.1
        ≡ (if has_text key removed.0 then none else get_user_extra user_id key s))
      × (get_room_extra room_id key removed.1
          ≡ (if has_text key removed.0 then none else get_room_extra room_id key s))
unfolding remove_fields_by_plugin
remove_fields_by_plugin-extras plugin user_id room_id key s =
    remove_fields_lem (keys_of_plugin plugin (s.fields)) user_id room_id key s

has_text-keys_of_plugin :
    (plugin j k : Text) (f : ExtensionField) (m : List (Text × ExtensionField))
    → get k m ≡ none
    → has_text j (keys_of_plugin plugin (put k f m)) ≡ (
        (beq_text k j && beq_text (f.registered_by) plugin) || has_text j (keys_of_plugin plugin m))
unfolding has_text keys_of_plugin put get
has_text-keys_of_plugin plugin j k f [] h = ground arith
has_text-keys_of_plugin plugin j k f ((i, g) ∷ m) h =
    ground (arith, beq_text_iff i k, has_text-keys_of_plugin plugin j k f m)

fields-remove_fields :
    (keys : List Text) (key : Text) (s : ExtensionDataStore)
    → get key ((remove_fields keys s).fields)
      ≡ (if has_text key keys then none else get key (s.fields))
unfolding remove_fields has_text
fields-remove_fields [] key s = refl
fields-remove_fields (k ∷ keys) key s =
    let shorter : ExtensionDataStore = record s {
      fields = remove k (s.fields);
      user_data = remove_from_all k (s.user_data);
      room_data = remove_from_all k (s.room_data);
    } in
    ground (arith, fields-remove_fields keys key shorter, get-remove key k (s.fields))

room_key-differs : (key : Text) → beq_text (room_key key) key ≡ false
room_key-differs key = elim (Bool-cases (beq_text (room_key key) key)) [
  | inl same ↦
      absurd (omega (arith, ap (length {A = ℕ}) ((beq_text_iff (room_key key) key).0 same)))
  | inr other ↦ other
]

-- If a plugin registers a new field for rooms and has no field for users of the same name, then a
-- value that a room gets under it outlives the field: once the fields of the plugin are removed, the
-- value can still be read, although the field is not registered any more.
pub remove_fields_by_plugin-leftover :
    (plugin key default_value description value room_id : Text) (s : ExtensionDataStore)
    → get (room_key key) (s.fields) ≡ none
    → has_text key (keys_of_plugin plugin (s.fields)) ≡ false
    → let registered = register_room_field key default_value plugin description s in
      let removed =
        remove_fields_by_plugin plugin (set_room_extra room_id key value registered.1).1 in
      (get_room_extra room_id key removed.1 ≡ some value)
      × (get (room_key key) (removed.1.fields) ≡ none)
unfolding remove_fields_by_plugin register_room_field register_user_field set_room_extra
    get_room_extra
remove_fields_by_plugin-leftover plugin key default_value description value room_id s h n =
    let rk = room_key key in
    let f : ExtensionField = record {
      key = rk;
      default_value = default_value;
      registered_by = plugin;
      description = description;
    } in
    let values = or_default (get room_id (s.room_data)) in
    let fields = put rk f (s.fields) in
    let set : ExtensionDataStore = record s {
      fields = fields;
      room_data = put room_id (put key value values) (s.room_data);
    } in
    let keys = keys_of_plugin plugin fields in
    ground (
      arith,
      get-put rk rk f (s.fields),
      get-put room_id room_id (put key value values) (s.room_data),
      get-put key key value values,
      beq_text_iff rk rk,
      beq_text_iff room_id room_id,
      beq_text_iff key key,
      beq_text_iff plugin plugin,
      room_key-differs key,
      has_text-keys_of_plugin plugin key rk f (s.fields) h,
      has_text-keys_of_plugin plugin rk rk f (s.fields) h,
      remove_fields_lem keys (pos 0) room_id key set,
      fields-remove_fields keys rk set,
    )
