-- ===== src/CachedResponse.antt =====
-- library/cached_response.cpp: what a handle passes on of a reply.
use lsd.Common.{
  ℕ, ◌+◌, ◌%◌, String, len, Bool, Option, List, ltb, if◌then◌else◌, str_eq, Result, ok, err, thrown,
  message_data_too_big,
}
use lsd.Common.Int.{ℤ, pos}
use lsd.Structs.{MessagePath, path_size, size_mod}
use lsd.DataContainer.{DataContainer, Sha1, init_with_data, empty_container}

-- received_timestamp_, which no code sets, is left out.
pub record CachedResponse : Type 0 where
  pub uuid : String
  pub path : MessagePath
  pub contents : DataContainer
  pub container_size : ℕ
  pub error_code : ℤ
  pub error_message : String

abbrev pub max_response_data_size : ℕ
max_response_data_size = 2147483648

abbrev pub uuid_size : ℕ
uuid_size = 36

-- `object_size` is sizeof(cached_response).
response_size : ℕ → DataContainer → MessagePath → String → ℕ
unfolding path_size
response_size object_size container path message =
    (object_size + container.size + uuid_size + (path_size path + len message)) % size_mod

-- The constructor for a chunk of data.
unfoldable pub data_response :
    (sha1 : Sha1) (object_size : ℕ)
    → String
    → MessagePath
    → Option (List ℕ)
    → ℕ
    → Result CachedResponse
unfolding init_with_data response_size
data_response sha1 object_size uuid path block block_size =
    if ltb max_response_data_size block_size
    then err (thrown message_data_too_big)
    else let container = init_with_data sha1 block block_size in
      ok (record {
        uuid = uuid;
        path = path;
        contents = container;
        container_size = response_size object_size container path "";
        error_code = pos 0;
        error_message = "";
      })

-- The constructor for an error.
unfoldable pub error_response : ℕ → String → MessagePath → ℤ → String → CachedResponse
unfolding empty_container response_size
error_response object_size uuid path code message = record {
  uuid = uuid;
  path = path;
  contents = empty_container;
  container_size = response_size object_size empty_container path message;
  error_code = code;
  error_message = message;
}

-- cached_response::operator ==
unfoldable pub response_eq : CachedResponse → CachedResponse → Bool
response_eq a b = str_eq a.uuid b.uuid

-- cached_response::set_error
unfoldable pub set_error : ℤ → String → CachedResponse → CachedResponse
set_error code message r = record r { error_code = code; error_message = message }
