-- ===== src/RequestContext/ClientIp.antt =====
-- `FindClientIPAddress` of src/api_manager/context/request_context.cc, and `Split` and `Trim` of
-- src/api_manager/utils/str_util.cc.
use esp.Base.{
  ℕ, ◌&&◌, Option, none, some, List, [], ◌∷◌, Str, is_empty, length, get_elem?, ◌==◌, if◌then◌else◌,
}
use esp.Base.Int.{ℤ, pos, negsuc, ◌+ℤ◌}
use esp.PathMatcher.Request.{split}
use esp.Request.{Request}
use esp.RequestContext.{Service}

unfoldable pub drop_heading : Str → Str
drop_heading [] = []
drop_heading (c ∷ s) = if c == b' ' then drop_heading s else c ∷ s

unfoldable pub drop_tailing : Str → Str
drop_tailing [] = []
drop_tailing (c ∷ s) =
    let rest = drop_tailing s in if c == b' ' && is_empty rest then [] else c ∷ rest

-- `Trim`.
abbrev pub trim : Str → Str
trim s = drop_tailing (drop_heading s)

-- The position of the address among the items: a negative one counts from the end.
abbrev pub position_in : ℤ → ℕ → ℤ
position_in (pos i) size = pos i
position_in (negsuc k) size = pos size +ℤ negsuc k

abbrev pub item_at : List Str → ℤ → Option Str
item_at items (pos i) = get_elem? items i
item_at items (negsuc k) = none

abbrev pub trimmed_or : Str → Option Str → Str
trimmed_or default none = default
trimmed_or default (some item) = trim item

-- The address for a header, where there is one.
abbrev pub address_in : ℤ → Str → Option Str → Str
address_in position default none = default
address_in position default (some header) =
    let items = split header b',' in
    trimmed_or default (item_at items (position_in position (length items)))

-- `FindClientIPAddress`.
unfoldable pub find_client_ip_address : Service → Request → Str
find_client_ip_address service r =
    if service.has_client_ip_extraction
    then if is_empty service.client_ip_header
      then r.client_ip
      else address_in service.client_ip_position r.client_ip
          (r.find_header service.client_ip_header)
    else r.client_ip
