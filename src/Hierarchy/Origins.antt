-- ===== src/Hierarchy/Origins.antt =====
-- The data of src/tmux_lifecycle.rs. A `BTreeMap` is the list of its entries in the order of the keys.
use lector.Prelude.{
  ℕ, Bool, true, false, Option, none, some, List, [], ◌∷◌, Bytes, ltb, ◌==◌, if◌then◌else◌,
}

abbrev pub max_connections : ℕ
max_connections = 4096

abbrev pub max_connection_depth : ℕ
max_connection_depth = 64

-- A pane of another connection: the parent connection, the session, the window and the pane.
pub data GatewayOrigin : Type 0 where
  direct : GatewayOrigin
  pane : ℕ → ℕ → ℕ → ℕ → GatewayOrigin

pub data GatewayControlAction : Type 0 where
  graceful_detach force_abandon : GatewayControlAction

abbrev pub requires_confirmation : GatewayControlAction → Bool
requires_confirmation force_abandon = true
requires_confirmation graceful_detach = false

abbrev pub transport_bytes : GatewayControlAction → Option Bytes
transport_bytes graceful_detach = none
transport_bytes force_abandon = some (0x1c ∷ [])

pub data LifecycleError : Type 0 where
  duplicate_connection missing_parent too_many_connections too_deep : LifecycleError

abbrev pub Origins : Type 0
Origins = List (ℕ × GatewayOrigin)

-- BTreeMap::get
abbrev pub find : Origins → ℕ → Option GatewayOrigin
find [] id = none
find ((key, origin) ∷ rest) id = if key == id then some origin else find rest id

-- BTreeMap::contains_key
abbrev pub contains_key : Origins → ℕ → Bool
contains_key [] id = false
contains_key ((key, origin) ∷ rest) id = if key == id then true else contains_key rest id

-- BTreeMap::insert, of a key that is not there
abbrev pub insert_entry : Origins → ℕ → GatewayOrigin → Origins
insert_entry [] id origin = (id, origin) ∷ []
insert_entry ((key, old) ∷ rest) id origin =
    let later = insert_entry rest id origin in
    if ltb id key then (id, origin) ∷ (key, old) ∷ rest else (key, old) ∷ later

-- BTreeMap::remove
abbrev pub remove_entry : Origins → ℕ → Origins
remove_entry [] id = []
remove_entry ((key, origin) ∷ rest) id =
    let later = remove_entry rest id in if key == id then rest else (key, origin) ∷ later

-- The keys of the entries with an origin of a kind, in order.
abbrev pub keys_where : (GatewayOrigin → Bool) → Origins → List ℕ
keys_where test [] = []
keys_where test ((key, origin) ∷ rest) =
    let later = keys_where test rest in if test origin then key ∷ later else later
