-- ===== src/Access/Store.antt =====
-- phira-mp-plus-server/src/extensions.rs: `ExtensionDataStore`, the fields that plugins register and the
-- values of users, of rooms and of the server.
pub mod Plugins
use phira_mp_plus.Common.{
  ℤ, List, [], ◌∷◌, ◌++◌, Bool, true, false, ◌||◌, Option, none, some, if◌then◌else◌, Result, ok,
  err, int_eq,
}
use phira_mp_plus.Common.Maps.{get, put, remove}
use phira_mp_plus.Wire.Text.{Text, beq_text, text_eq}

pub record ExtensionField : Type 0 where
  pub key : Text
  pub default_value : Text
  pub registered_by : Text
  pub description : Text

-- `ExtensionDataStore`, without its cache of authentications.
pub record ExtensionDataStore : Type 0 where
  pub fields : List (Text × ExtensionField)
  pub user_data : List (ℤ × List (Text × Text))
  pub room_data : List (Text × List (Text × Text))
  pub global_data : List (Text × Text)

-- `ExtensionDataStore::new`
abbrev pub new : ExtensionDataStore
new = record { fields = []; user_data = []; room_data = []; global_data = [] }

-- The errors of the store, each with the key that its text names.
pub data StoreError : Type 0 where
  already_registered not_registered room_not_registered : Text → StoreError

abbrev pub is_some : {A : Type 0} → Option A → Bool
is_some none = false
is_some (some a) = true

-- `format!("room:{}", key)`
abbrev pub room_key : Text → Text
room_key key = b'r' ∷ b'o' ∷ b'o' ∷ b'm' ∷ b':' ∷ key

unfoldable pub register_user_field :
    (key default_value registered_by description : Text)
    → ExtensionDataStore
    → Result StoreError (Unit {0}) × ExtensionDataStore
register_user_field key default_value registered_by description s =
    if is_some (get key (s.fields)) then (err (already_registered key), s) else (
      ok tt,
      record s {
        fields =
            put key
              (record {
                key = key;
                default_value = default_value;
                registered_by = registered_by;
                description = description;
              })
              (s.fields);
      },
    )

unfoldable pub register_room_field :
    (key default_value registered_by description : Text)
    → ExtensionDataStore
    → Result StoreError (Unit {0}) × ExtensionDataStore
register_room_field key default_value registered_by description s =
    register_user_field (room_key key) default_value registered_by description s

-- `get(..)?.get(key)`
abbrev pub within_entry : Text → Option (List (Text × Text)) → Option Text
within_entry key none = none
within_entry key (some values) = get key values

-- `entry(..).or_default()`
abbrev pub or_default : Option (List (Text × Text)) → List (Text × Text)
or_default none = []
or_default (some values) = values

unfoldable pub get_user_extra : ℤ → Text → ExtensionDataStore → Option Text
get_user_extra user_id key s = within_entry key (get user_id (s.user_data))

unfoldable pub set_user_extra :
    ℤ → (key value : Text) → ExtensionDataStore → Result StoreError (Unit {0}) × ExtensionDataStore
set_user_extra user_id key value s =
    if is_some (get key (s.fields))
    then (
      ok tt,
      record s {
        user_data =
            put user_id (put key value (or_default (get user_id (s.user_data)))) (s.user_data);
      },
    )
    else (err (not_registered key), s)

unfoldable pub get_room_extra : (room_id key : Text) → ExtensionDataStore → Option Text
get_room_extra room_id key s = within_entry key (get room_id (s.room_data))

unfoldable pub set_room_extra :
    (room_id key value : Text)
    → ExtensionDataStore
    → Result StoreError (Unit {0}) × ExtensionDataStore
set_room_extra room_id key value s =
    if is_some (get (room_key key) (s.fields))
    then (
      ok tt,
      record s {
        room_data =
            put room_id (put key value (or_default (get room_id (s.room_data)))) (s.room_data);
      },
    )
    else (err (room_not_registered key), s)

unfoldable pub get_global : Text → ExtensionDataStore → Option Text
get_global key s = get key (s.global_data)

unfoldable pub set_global :
    (key value : Text) → ExtensionDataStore → Result StoreError (Unit {0}) × ExtensionDataStore
set_global key value s = (ok tt, record s { global_data = put key value (s.global_data) })

unfoldable pub cleanup_user : ℤ → ExtensionDataStore → ExtensionDataStore
cleanup_user user_id s = record s { user_data = remove user_id (s.user_data) }

unfoldable pub cleanup_room : Text → ExtensionDataStore → ExtensionDataStore
cleanup_room room_id s = record s { room_data = remove room_id (s.room_data) }

-- `values_mut()`, with the removal of a key from each value.
unfoldable pub remove_from_all :
    {K : Type 0} → Text → List (K × List (Text × Text)) → List (K × List (Text × Text))
remove_from_all key [] = []
remove_from_all key ((k, values) ∷ m) = (k, remove key values) ∷ remove_from_all key m

-- The keys of the fields that a plugin has registered.
unfoldable pub keys_of_plugin : Text → List (Text × ExtensionField) → List Text
keys_of_plugin plugin [] = []
keys_of_plugin plugin ((k, f) ∷ m) =
    let rest = keys_of_plugin plugin m in
    if beq_text (f.registered_by) plugin then k ∷ rest else rest

-- The loop of `remove_fields_by_plugin`.
unfoldable pub remove_fields : List Text → ExtensionDataStore → ExtensionDataStore
remove_fields [] s = s
remove_fields (key ∷ keys) s = remove_fields keys (record s {
  fields = remove key (s.fields);
  user_data = remove_from_all key (s.user_data);
  room_data = remove_from_all key (s.room_data);
})

unfoldable pub remove_fields_by_plugin : Text → ExtensionDataStore → List Text × ExtensionDataStore
remove_fields_by_plugin plugin s =
    (keys_of_plugin plugin (s.fields), remove_fields (keys_of_plugin plugin (s.fields)) s)
