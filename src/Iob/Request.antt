-- ===== src/Iob/Request.antt =====
-- An I/O request: class IoBaseRequest of iob/io/IoRequest.hpp and iob/io/IoRequest.cpp. A `char*` is the
-- number of a buffer, and `user` the number of a callback with its data.
use ssdiq.Prelude.{ℕ, ◌-◌, ◌^◌, Bool, false, Option, none, if◌then◌else◌}

pub data IoRequestType : Type 0 where
  undefined write read fsync zns_append free trim : IoRequestType

pub record IoBaseRequest : Type 0 where
  pub id : ℕ
  pub type : IoRequestType
  pub data_buffer : Option ℕ
  pub addr : ℕ
  pub len : ℕ
  pub out_of_place_addr : ℕ
  pub user : Option ℕ
  pub device : ℕ
  pub offset : ℕ
  pub write_back : Bool
  pub write_back_buffer : Option ℕ
  pub reuse_request : Bool

-- The default constructor.
abbrev pub new_request : IoBaseRequest
new_request = record {
  id = 1000001;
  type = IoRequestType.undefined;
  data_buffer = none;
  addr = 2 ^ 64 - 1;
  len = 2 ^ 64 - 1;
  out_of_place_addr = 2 ^ 64 - 1;
  user = none;
  device = 0;
  offset = 0;
  write_back = false;
  write_back_buffer = none;
  reuse_request = false;
}

unfoldable pub setup_write : Option ℕ → ℕ → ℕ → Option ℕ → Bool → IoBaseRequest → IoBaseRequest
setup_write buf addr len cb write_back r = record r {
  type = IoRequestType.write;
  data_buffer = buf;
  addr = addr;
  len = len;
  user = cb;
  write_back = write_back;
  reuse_request = false;
}

unfoldable pub setup_read : Option ℕ → ℕ → ℕ → Option ℕ → IoBaseRequest → IoBaseRequest
setup_read buf addr len cb r = record r {
  type = IoRequestType.read;
  data_buffer = buf;
  addr = addr;
  len = len;
  user = cb;
  reuse_request = false;
}

unfoldable pub setup_fsync : Option ℕ → IoBaseRequest → IoBaseRequest
setup_fsync cb r = record r {
  type = IoRequestType.fsync;
  data_buffer = none;
  addr = 0;
  len = 0;
  user = cb;
  reuse_request = false;
}

unfoldable pub buffer : IoBaseRequest → Option ℕ
buffer r = if r.write_back then r.write_back_buffer else r.data_buffer

unfoldable pub copy_fields : IoBaseRequest → IoBaseRequest → IoBaseRequest
copy_fields usr r = record r {
  id = usr.id;
  type = usr.type;
  data_buffer = usr.data_buffer;
  addr = usr.addr;
  len = usr.len;
  user = usr.user;
  write_back = usr.write_back;
}
