-- ===== src/Loader/Messages.antt =====
-- DLLResolveImports' error texts fit into the buffer of the output.
use nxdk_dyndxt.Base.{
  ℕ, ◌+◌, ◌<◌, inl, inr, ◌++◌, Bytes, arith, leb, Bool-cases, length, length-append,
}
use nxdk_dyndxt.Base.Format.{decimal, length-decimal}
use nxdk_dyndxt.Loader.Types.{max_error_len}
use nxdk_dyndxt.Loader.Imports.{at_sign, error_text, ordinal_text, name_text}

-- A text is shorter than the buffer if it is shorter than the announced length.
length-error_text :
    (len : ℕ) (text : Bytes) → length text < len → length (error_text len text) < max_error_len
unfolding error_text
length-error_text len text l = elim (Bool-cases (leb max_error_len len)) [
  | inl y ↦ rw y (omega arith)
  | inr y ↦ rw y (ground arith)
]

-- Both texts that DLLResolveImports puts into the 256 bytes of `error_message` are at most 255
-- characters long, for all names and ordinals, so that the terminator fits too.
pub length-messages :
    (image_name import_name : Bytes) (ordinal : ℕ)
    → (length (ordinal_text image_name ordinal) < max_error_len)
      × (length (name_text image_name import_name) < max_error_len)
unfolding ordinal_text name_text
length-messages image import ordinal = (
  length-error_text (length image + 16) (image ++ (at_sign ++ decimal 5 ordinal)) (
      omega (
        arith,
        length-append {0} image (at_sign ++ decimal 5 ordinal),
        length-append {0} at_sign (decimal 5 ordinal),
        length-decimal 5 ordinal,
      )),
  length-error_text (length image + length import + 8) (image ++ (at_sign ++ import)) (
      omega (arith, length-append {0} image (at_sign ++ import), length-append {0} at_sign import)),
)
