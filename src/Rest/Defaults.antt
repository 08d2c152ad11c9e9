-- ===== src/Rest/Defaults.antt =====
-- The calls of src/rest/client.h with their default arguments: no headers, an empty body, and the
-- error object that all such calls share.
use crypto_con.Base.{Bytes, []}
use crypto_con.World.{Env}
use crypto_con.Exec.{Exec, dummy}
use crypto_con.Rest.{Headers, http_get, http_post, http_put, http_delete}

module _ (env : Env) (target : Bytes) where
  abbrev pub get_plain : Exec Bytes
  get_plain = http_get env target [] dummy

  module _ (headers : Headers) where
    abbrev pub get_with : Exec Bytes
    get_with = http_get env target headers dummy

    abbrev pub post_with : Exec Bytes
    post_with = http_post env target headers [] dummy

    abbrev pub put_with : Exec Bytes
    put_with = http_put env target headers [] dummy

    abbrev pub delete_with : Exec Bytes
    delete_with = http_delete env target headers dummy
