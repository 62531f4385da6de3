-- ===== src/Tests/Tables.antt =====
-- The enumerations with concrete constants.
use libuv_rs.Common.{◌≡◌, refl, true}
use libuv_rs.Common.Int.{ℤ, pos}
use libuv_rs.Common.Table.{is_distinct, is_fresh}
use libuv_rs.Error.{Error}
use libuv_rs.Error.{
  constants as error_constants, from_inner as error_from_inner, code as error_code,
}
use libuv_rs.Error.RoundTrip.{from_inner-code}
use libuv_rs.Enumerations.{from_inner-into_inner_all}
use libuv_rs.Tests.{errno}
use libuv_rs.HandleType.{
  HandleType, UvHandleType, constants as handle_constants, from_inner as handle_from_inner,
  into_inner as handle_into_inner,
}
use libuv_rs.HandleType.RoundTrip.{place as handle_place}
use libuv_rs.ReqType.{
  ReqType, UvReqType, constants as req_constants, from_inner as req_from_inner,
  into_inner as req_into_inner,
}
use libuv_rs.ReqType.RoundTrip.{place as req_place}
use libuv_rs.DirentType.{
  DirentType, UvDirentType, constants as dirent_constants, from_inner as dirent_from_inner,
  into_inner as dirent_into_inner,
}
use libuv_rs.DirentType.RoundTrip.{place as dirent_place}
use libuv_rs.FsType.{
  FsType, UvFsType, constants as fs_constants, from_inner as fs_from_inner,
  into_inner as fs_into_inner,
}
use libuv_rs.FsType.RoundTrip.{place as fs_place}

errno-distinct : is_distinct errno error_constants ≡ true
unfolding is_distinct is_fresh error_constants
errno-distinct = refl

from_inner-code_example : error_from_inner errno (error_code errno Error.enoent) ≡ Error.enoent
from_inner-code_example = from_inner-code errno errno-distinct Error.enoent

abbrev handle_value : UvHandleType → ℤ
handle_value t = pos (handle_place t)

handle-distinct : is_distinct handle_value handle_constants ≡ true
unfolding is_distinct is_fresh handle_constants
handle-distinct = refl

abbrev req_value : UvReqType → ℤ
req_value t = pos (req_place t)

req-distinct : is_distinct req_value req_constants ≡ true
unfolding is_distinct is_fresh req_constants
req-distinct = refl

abbrev dirent_value : UvDirentType → ℤ
dirent_value t = pos (dirent_place t)

dirent-distinct : is_distinct dirent_value dirent_constants ≡ true
unfolding is_distinct is_fresh dirent_constants
dirent-distinct = refl

abbrev fs_value : UvFsType → ℤ
fs_value t = pos (fs_place t)

fs-distinct : is_distinct fs_value fs_constants ≡ true
unfolding is_distinct is_fresh fs_constants
fs-distinct = refl

from_inner-into_inner_all_example :
    ((e : HandleType) → handle_from_inner handle_value (handle_into_inner handle_value e) ≡ e)
    × ((e : ReqType) → req_from_inner req_value (req_into_inner req_value e) ≡ e)
    × ((e : FsType) → fs_from_inner fs_value (fs_into_inner fs_value e) ≡ e)
    × ((e : DirentType) → dirent_from_inner dirent_value (dirent_into_inner dirent_value e) ≡ e)
from_inner-into_inner_all_example =
    from_inner-into_inner_all handle_value req_value fs_value dirent_value handle-distinct
      req-distinct fs-distinct dirent-distinct
