-- ===== src/Examples/Media.antt =====
-- pkg/media/store.go: one file under two scopes.
use ebiclaw.Prelude.{◌≡◌, true, none, List, [], ◌∷◌, refl}
use ebiclaw.Strings.{codes, text_eq}
use ebiclaw.Maps.{get, put}
use ebiclaw.Media.{MediaMeta, new_file_media_store, store}
use ebiclaw.Media.Removal.{Call, keep, release, call, call_all, IsSound, call-IsSound}

abbrev photo : MediaMeta
photo = record {
  filename = codes "p.png";
  content_type = codes "image/png";
  source = codes "telegram";
  cleanup_policy = [];
}

abbrev media_calls : List Call
media_calls =
    keep true (codes "media://1") (codes "/tmp/p") photo (codes "a") 5
    ∷ keep true (codes "media://2") (codes "/tmp/p") photo (codes "b") 6
    ∷ release (codes "a")
    ∷ []

second_fresh :
    get
      (codes "media://2")
      (call
        (keep true (codes "media://1") (codes "/tmp/p") photo (codes "a") 5)
        (new_file_media_store 100)).1.ref_to_path
    ≡ none
unfolding call store new_file_media_store get put text_eq
second_fresh = refl

call-IsSound_example :
    IsSound (call (release (codes "b")) (call_all media_calls (new_file_media_store 100)))
call-IsSound_example =
    call-IsSound 100 media_calls (release (codes "b"))
      (unfold new_file_media_store get in refl, (second_fresh, (tt, tt))) tt
