-- ===== src/Zip/Write.antt =====
-- `write` of src/mth/core/save/zip_archive.cpp.
use mth_apclient.Zip.{
  Blob, le16, le32, local_sig, central_sig, eocd_sig, version_needed, dos_epoch_time,
  dos_epoch_date,
}
use mth_apclient.Base.{ℕ, ◌+◌, ◌-◌, ◌^◌, ◌%◌, List, [], ◌∷◌, ◌++◌, length, Bytes}
use mth_apclient.Logs.{size}

-- What the first loop appends for a blob.
unfoldable pub local_record : Blob → Bytes
unfolding le16 le32
local_record b =
    le32 local_sig
    ++ (le16 version_needed
        ++ (le16 0
            ++ (le16 b.method
                ++ (le16 dos_epoch_time
                    ++ (le16 dos_epoch_date
                        ++ (le32 b.crc32
                            ++ (le32 (length b.stored)
                                ++ (le32 b.uncompressed_size
                                    ++ (le16 (length b.name)
                                        ++ (le16 0 ++ (b.name ++ b.stored)))))))))))

-- What the second loop appends for a blob whose local record stands at `offset`.
unfoldable pub central_record : Blob → ℕ → Bytes
unfolding le16 le32
central_record b offset =
    le32 central_sig
    ++ (le16 version_needed
        ++ (le16 version_needed
            ++ (le16 0
                ++ (le16 b.method
                    ++ (le16 dos_epoch_time
                        ++ (le16 dos_epoch_date
                            ++ (le32 b.crc32
                                ++ (le32 (length b.stored)
                                    ++ (le32 b.uncompressed_size
                                        ++ (le16 (length b.name)
                                            ++ (le16 0
                                                ++ (le16 0
                                                    ++ (le16 0
                                                        ++ (le16 0
                                                            ++ (le32 0
                                                            ++ (le32 offset
                                                            ++ b.name))))))))))))))))

-- What is appended last; the sizes are those of the directory.
unfoldable pub end_record : ℕ → ℕ → ℕ → Bytes
unfolding le16 le32
end_record count size offset =
    le32 eocd_sig
    ++ (le16 0
        ++ (le16 0 ++ (le16 count ++ (le16 count ++ (le32 size ++ (le32 offset ++ le16 0))))))

-- The first loop: the output and the offsets.
unfoldable pub write_locals : List Blob → Bytes → Bytes × List ℕ
write_locals [] out = (out, [])
write_locals (b ∷ bs) out =
    let (final, offsets) = write_locals bs (out ++ local_record b) in
    (final, (length out % 2 ^ 32) ∷ offsets)

unfoldable pub write_centrals : List Blob → List ℕ → Bytes → Bytes
write_centrals [] offsets out = out
write_centrals (b ∷ bs) [] out = out
write_centrals (b ∷ bs) (offset ∷ offsets) out =
    write_centrals bs offsets (out ++ central_record b offset)

unfoldable pub write : List Blob → Bytes
write blobs =
    let (body, offsets) = write_locals blobs [] in
    let cd_offset = length body % 2 ^ 32 in
    let out = write_centrals blobs offsets body in
    let cd_size = (length out % 2 ^ 32 + 2 ^ 32 - cd_offset) % 2 ^ 32 in
    out ++ end_record (length blobs) cd_size cd_offset
