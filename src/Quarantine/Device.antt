-- ===== src/Quarantine/Device.antt =====
-- internal/quarantine/quarantine.go: the devices, their names and their order.
pub mod Order
use nvsentinel_capi_remediat.Common.{
  String, ◌⧺◌, ◌==◌, Bool, ◌&&◌, not, str_lt, List, map, join, if◌then◌else◌,
}

pub record Device : Type 0 where
  pub driver : String
  pub pool : String
  pub name : String

-- `String`
unfoldable pub device_text : Device → String
device_text d = d.driver ⧺ "/" ⧺ d.pool ⧺ "/" ⧺ d.name

-- `a == b`
unfoldable pub same_device : Device → Device → Bool
same_device a b = a.driver == b.driver && a.pool == b.pool && a.name == b.name

-- `compare(a, b) < 0`
unfoldable pub device_lt : Device → Device → Bool
device_lt a b =
    if not (a.driver == b.driver)
    then str_lt a.driver b.driver
    else if not (a.pool == b.pool)
    then str_lt a.pool b.pool
    else str_lt a.name b.name

-- `list`, and `deviceList` of the controller
unfoldable pub list_devices : List Device → String
unfolding device_text join
list_devices ds = join (map device_text ds) ", "
