-- ===== src/Req.antt =====
-- src/requests/req.rs: the data box that each request owns.
pub mod Fs
pub mod GetAddrInfo
pub mod GetNameInfo
pub mod Random
pub mod Owned
pub mod UdpSend
pub mod Work
pub mod Connect
pub mod Shutdown
pub mod Write
use libuv_rs.Common.{Bool, ◌==◌, if◌then◌else◌}
use libuv_rs.Error.{Error}
use libuv_rs.Memory.{Ptr, null, Layout, ReqData, Block, req_data}
use libuv_rs.Memory.Effect.{
  Fault, uv, Eff, pure, throw, crash, ◌>>=◌, ◌>>◌, Env, load, release, std_alloc, std_dealloc,
  box_into_raw, uv_get_data, uv_set_data,
}

module _ (env : Env) where
  unfoldable pub initialize_data : Ptr → ReqData → Eff (Unit {0})
  unfolding box_into_raw uv_set_data
  initialize_data req data_ = do ptr ← box_into_raw env (req_data data_); uv_set_data req ptr

  -- The body that the constructors of the requests share: allocate, refuse null, attach the data.
  unfoldable pub new_request : Layout → ReqData → Eff Ptr
  unfolding std_alloc initialize_data
  new_request layout data_ = do
    req ← std_alloc env layout
    if req == null then throw (uv Error.enomem) else do initialize_data req data_; pure req

unfoldable pub get_data : Ptr → Eff Ptr
unfolding uv_get_data
get_data req = uv_get_data req

abbrev pub as_req_data : Block → Eff ReqData
as_req_data (req_data d) = pure d
as_req_data _ = crash Fault.wrong_block

-- `&mut *dataptr`.
unfoldable pub load_data : Ptr → Eff ReqData
unfolding load
load_data p = do b ← load p; as_req_data b

unfoldable pub free_data : Ptr → Eff (Unit {0})
unfolding get_data load_data release uv_set_data
free_data req = do ptr ← get_data req; load_data ptr; release ptr; uv_set_data req null

-- The body that the destructors of the requests share.
unfoldable pub destroy_request : Ptr → Layout → Eff (Unit {0})
unfolding free_data std_dealloc
destroy_request req layout = do free_data req; std_dealloc req layout
