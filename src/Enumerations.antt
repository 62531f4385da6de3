-- ===== src/Enumerations.antt =====
-- The enumerations of src/handles, src/requests and src/fs, together.
use libuv_rs.Common.{◌≡◌, true}
use libuv_rs.Common.Int.{ℤ}
use libuv_rs.Common.Table.{is_distinct}
use libuv_rs.HandleType
use libuv_rs.ReqType
use libuv_rs.FsType
use libuv_rs.DirentType
use libuv_rs.HandleType.RoundTrip.{from_inner-into_inner_handle}
use libuv_rs.ReqType.RoundTrip.{from_inner-into_inner_req}
use libuv_rs.FsType.RoundTrip.{from_inner-into_inner_fs}
use libuv_rs.DirentType.RoundTrip.{from_inner-into_inner_dirent}

-- With distinct constants, every handle type, request type, file system request type and directory
-- entry type survives the conversion to its libuv number and back.
pub from_inner-into_inner_all :
    (handle_value : HandleType.UvHandleType → ℤ) (req_value : ReqType.UvReqType → ℤ)
    (fs_value : FsType.UvFsType → ℤ) (dirent_value : DirentType.UvDirentType → ℤ)
    → is_distinct handle_value HandleType.constants ≡ true
    → is_distinct req_value ReqType.constants ≡ true
    → is_distinct fs_value FsType.constants ≡ true
    → is_distinct dirent_value DirentType.constants ≡ true
    → ((e : HandleType.HandleType)
        → HandleType.from_inner handle_value (HandleType.into_inner handle_value e) ≡ e)
      × ((e : ReqType.ReqType) → ReqType.from_inner req_value (ReqType.into_inner req_value e) ≡ e)
      × ((e : FsType.FsType) → FsType.from_inner fs_value (FsType.into_inner fs_value e) ≡ e)
      × ((e : DirentType.DirentType)
          → DirentType.from_inner dirent_value (DirentType.into_inner dirent_value e) ≡ e)
from_inner-into_inner_all hv rv fv dv h r f d = (
  from_inner-into_inner_handle hv h,
  from_inner-into_inner_req rv r,
  from_inner-into_inner_fs fv f,
  from_inner-into_inner_dirent dv d,
)
