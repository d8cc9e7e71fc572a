-- ===== src/Notification/Ntfy.antt =====
-- services/notification/drivers/ntfy.py
use Prim.Native.Char.{code}
use belgrade_os.Base.{
  String, ◌&&◌, nat_eq, ◌<>◌, Bool, true, false, List, [], ◌∷◌, ◌++◌, if◌then◌else◌, is_empty,
}
use belgrade_os.Base.Dict.{Dict}
use belgrade_os.Wire.{NotificationRequest, NotificationPriority}
use belgrade_os.Prog.{Prog, pure}
use belgrade_os.Calls.{http_notify, aclose}

-- `base_url.rstrip("/")`
unfoldable pub rstrip_slash : String → String
rstrip_slash String.[] = ""
rstrip_slash (String.◌∷◌ c s) =
    let rest = rstrip_slash s in
    if is_empty rest && nat_eq (code c) b'/' then "" else String.◌∷◌ c rest

abbrev pub priority_of : NotificationPriority → String
priority_of NotificationPriority.unspecified = "3"
priority_of NotificationPriority.low = "2"
priority_of NotificationPriority.normal = "3"
priority_of NotificationPriority.high = "5"
priority_of (NotificationPriority.unknown n) = "3"

-- `",".join(tags)`
unfoldable pub join : List String → String
join [] = ""
join (tag ∷ []) = tag
join (tag ∷ next ∷ tags) = tag <> "," <> join (next ∷ tags)

abbrev is_nil : List String → Bool
is_nil [] = true
is_nil (_ ∷ _) = false

abbrev pub headers_of : NotificationRequest → Dict String
headers_of req =
    ("Title", req.title)
      ∷ ("Priority", priority_of req.priority)
      ∷ (if is_nil req.tags then [] else ("Tags", join req.tags) ∷ [])
    ++ (if is_empty req.click_url then [] else ("Click", req.click_url) ∷ [])

module _ (base_url topic : String) where
  abbrev pub send_url : String
  send_url = rstrip_slash base_url <> "/" <> topic

  -- The client is the driver's own or a new one.
  unfoldable pub send : NotificationRequest → Prog Unit
  unfolding rstrip_slash
  send req = http_notify send_url (headers_of req) req.body

-- NtfyDriver.close: a client of the driver's own is closed.
unfoldable pub close : Bool → Prog Unit
close true = aclose "ntfy"
close false = pure tt
