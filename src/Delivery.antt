-- ===== src/Delivery.antt =====
-- Which entries of a stream were handed to a program, and for which it called XACK.
use belgrade_os.Base.{String, List, [], ◌∷◌, Option, none, some, ◌≡◌, ◌==◌, if◌then◌else◌}
use belgrade_os.Base.Dict.{lookup}
use belgrade_os.World.{Cmd, Reply, Result, ok, raised, Message}
use belgrade_os.Prog.{History}

-- The calls of a history, the newest first.
abbrev pub commands : History → List Cmd
commands [] = []
commands ((c, _) ∷ t) = c ∷ commands t

abbrev delivered_by : Result (Option Message) → List String → List String
delivered_by (ok (some m)) ids = m.id ∷ ids
delivered_by (ok none) ids = ids
delivered_by (raised x) ids = ids

-- The entries of `stream` that were delivered, the newest first.
abbrev deliver : String → (c : Cmd) → Reply c → List String → List String
deliver stream (Cmd.xreadgroup s g c) r ids = if s == stream then delivered_by r ids else ids
deliver stream _ r ids = ids

abbrev pub delivered : String → History → List String
delivered stream [] = []
delivered stream ((c, r) ∷ t) = deliver stream c r (delivered stream t)

abbrev readable_by : Result (Option Message) → List String → List String
readable_by (ok (some m)) ids = elim (lookup "data" m.fields) [ none ↦ ids | some _ ↦ m.id ∷ ids ]
readable_by (ok none) ids = ids
readable_by (raised x) ids = ids

abbrev receive : String → (c : Cmd) → Reply c → List String → List String
receive stream (Cmd.xreadgroup s g c) r ids = if s == stream then readable_by r ids else ids
receive stream _ r ids = ids

-- The delivered entries of `stream` that have the field `data`, the newest first.
abbrev pub readable : String → History → List String
readable stream [] = []
readable stream ((c, r) ∷ t) = receive stream c r (readable stream t)

abbrev acknowledge : String → Cmd → List String → List String
acknowledge stream (Cmd.xack s g m) ids = if s == stream then m ∷ ids else ids
acknowledge stream _ ids = ids

-- The entries of `stream` for which XACK was called, the newest first.
abbrev pub xack_calls : String → History → List String
xack_calls stream [] = []
xack_calls stream ((c, _) ∷ t) = acknowledge stream c (xack_calls stream t)

abbrev refuse : {A : Type 0} → String → Result A → List String → List String
refuse id (ok _) ids = ids
refuse id (raised x) ids = id ∷ ids

abbrev refused_by : String → (c : Cmd) → Reply c → List String → List String
refused_by stream (Cmd.xack s g m) r ids = if s == stream then refuse m r ids else ids
refused_by stream _ r ids = ids

-- The entries of `stream` for which XACK was called and refused by Redis, the newest first.
abbrev pub refused_acks : String → History → List String
refused_acks stream [] = []
refused_acks stream ((c, r) ∷ t) = refused_by stream c r (refused_acks stream t)

-- XACK was called for every entry that was delivered, once and in order.
abbrev pub IsSettled : String → History → Type 0
IsSettled stream t = delivered stream t ≡ xack_calls stream t

-- It was for all but the last entry, and the last one lacks the field `data`.
abbrev pub LacksData : String → History → Type 0
LacksData stream t =
    (m : Message) × (delivered stream t ≡ m.id ∷ xack_calls stream t)
    × (lookup "data" m.fields ≡ none)
