-- ===== src/Examples/Page.antt =====
-- A page of three bytes, read chunk by chunk.
use bloem_community_crowquil.Prelude.{
  ◌≡◌, refl, Bytes, FilePath, [], ◌∷◌, Option, some, ok, codes, arith,
}
use bloem_community_crowquil.Prelude.Int.{pos}
use bloem_community_crowquil.Silo.Cache.State.{CachedPage}
use bloem_community_crowquil.Silo.Page.Reads.{read_chunks, read_chunks_all}

abbrev contents : Bytes
contents = 1 ∷ 2 ∷ 3 ∷ []

abbrev open_file : FilePath → Option Bytes
open_file path = some contents

abbrev page : CachedPage
page = record {
  name = codes "1.png";
  file = codes "cache" ∷ codes "page-000001" ∷ [];
  size = pos 3;
  media_type = codes "image/png";
}

read_chunks_all_example : read_chunks open_file (page ∷ []) (pos 0) 1 ≡ ok contents
read_chunks_all_example =
    read_chunks_all open_file (page ∷ []) 0 page contents refl refl refl (omega arith) 1
      (omega arith) (omega arith)
