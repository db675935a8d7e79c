-- ===== src/Server/Images.antt =====
-- The uploads of cmd/agent/main.go: the extension that a file keeps, and the copy under images.
use virtualis_agent.Common.{
  ℕ, ◌*◌, ◌+◌, ◌^◌, ◌≡◌, refl, Bool, List, [], ◌∷◌, Option, none, some, Result, ok, err,
  if◌then◌else◌, ltb, ◌==◌, or_else, by_result, by_option, is_some,
}
use virtualis_agent.Common.Text.{Text, text, to_lower, has_prefix, is_empty}
use mathlib.Core.List.{reverse}
use virtualis_agent.Protocol.{Instance, Image, no_image}
use virtualis_agent.Server.{
  AgentServer, Environment, Handler, Upload, ◌>>=◌, ◌>>◌, pure, modify, store, stored_instance,
  on_host, on_host_, or_error,
}

-- 64 GiB
abbrev pub max_image_size : ℕ
max_image_size = 64 * 2 ^ 30

last_element : Text → Text → Text
last_element acc [] = reverse acc
last_element acc (c ∷ s) = last_element (if c == b'/' then [] else c ∷ acc) s

strip_slashes : Text → Text
strip_slashes [] = []
strip_slashes (c ∷ s) = if c == b'/' then strip_slashes s else c ∷ s

-- filepath.Base
unfoldable pub base : Text → Text
unfolding last_element strip_slashes
base [] = text "."
base (c ∷ s) =
    let name = last_element [] (reverse (strip_slashes (reverse (c ∷ s)))) in
    if is_empty name then text "/" else name

-- strings.HasSuffix
unfoldable pub has_suffix : Text → Text → Bool
has_suffix s part = has_prefix (reverse s) (reverse part)

unfoldable pub first_suffix : Text → List Text → Text
unfolding has_suffix
first_suffix name [] = []
first_suffix name (ext ∷ exts) = if has_suffix name ext then ext else first_suffix name exts

unfoldable pub image_extensions : List Text
image_extensions =
    text ".tar.gz"
    ∷ text ".qcow2"
    ∷ text ".vmdk"
    ∷ text ".vdi"
    ∷ text ".raw"
    ∷ text ".img"
    ∷ text ".iso"
    ∷ text ".gz"
    ∷ []

unfoldable pub safe_extension : Text → Text
unfolding base first_suffix image_extensions
safe_extension filename = first_suffix (to_lower (base filename)) image_extensions

-- The image of a stored instance that is reached by the same pointer; an instance without an image
-- has none to share.
unfoldable pub write_through : {W : Type 0} → Option ℕ → Image → AgentServer W → AgentServer W
unfolding stored_instance store
write_through none image s = s
write_through (some id) image s = by_option (stored_instance id s) s (λ stored.
    if is_some stored.image then store id (record stored { image = some image }) s else s)

module _ {W : Type 0} (env : Environment W) where
  -- The copy stops one byte past the limit, and what is too long is removed again.
  unfoldable pub save_image : Upload → Handler W (Result Text)
  unfolding safe_extension
  save_image upload = do
    created ← on_host (env.create_image (safe_extension upload.filename))
    by_result created (λ e. pure (err e))
        (λ path. do
          copied ← on_host (env.copy_upload upload path (max_image_size + 1))
          by_result copied (λ e. do on_host_ (env.remove path); pure (err e))
              (λ written.
                if ltb max_image_size written
                then (do on_host_ (env.remove path); pure (err (text "镜像文件超过 64 GiB")))
                else (do on_host_ (env.prepare_disk_file path); pure (ok path))))

  -- An upload becomes the instance's image, or its second part; an instance with no image gets the
  -- one given. The write goes through the pointer to the image, also to the stored instance that
  -- has the same pointer, if any.
  unfoldable pub attach_image : Option ℕ → Option Upload → Image → Instance → Handler W Instance
  unfolding save_image write_through
  attach_image shared none fresh i = pure i
  attach_image shared (some upload) fresh i = do
    saved ← save_image upload
    path ← or_error 400 saved
    let image = record (or_else i.image fresh) { path = path }
    modify (write_through shared image)
    pure (record i { image = some image })

  unfoldable pub attach_extra : Option ℕ → Option Upload → Instance → Handler W Instance
  unfolding save_image write_through
  attach_extra shared none i = pure i
  attach_extra shared (some upload) i = do
    saved ← save_image upload
    path ← or_error 400 saved
    let image = record (or_else i.image no_image) { extra_path = path }
    modify (write_through shared image)
    pure (record i { image = some image })

extension_runs : safe_extension (text "/tmp/Disk.TAR.gz") ≡ text ".tar.gz"
unfolding safe_extension text to_lower has_prefix
extension_runs = refl
