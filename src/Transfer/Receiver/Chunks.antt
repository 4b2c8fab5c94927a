-- ===== src/Transfer/Receiver/Chunks.antt =====
-- A file cut into blocks, and put together again.
use underground_node_network.Base.{
  ℕ, zero, suc, ◌+◌, ◌*◌, ◌≤◌, ◌<◌, ◌≡◌, [], ◌∷◌, ◌++◌, true, arith, refl, ap, ◌∙◌, some, length,
  take, drop, take-append-drop, length-drop, Bytes, get_elem?,
}
use underground_node_network.Text.{Text}
use underground_node_network.Transfer.Base64.RoundTrip.{AreBytes}
use underground_node_network.Transfer.Sender.{
  block_size, block_count, Header, payload, send_from, download_file,
}
use underground_node_network.Transfer.Receiver.{write_blocks}
use underground_node_network.Transfer.Receiver.Slots.{tabulate}

-- What is left of the file behind `i` blocks.
abbrev pub rest_at : ℕ → Bytes → Bytes
rest_at zero file = file
rest_at (suc i) file = rest_at i (drop block_size file)

abbrev pub chunk : Bytes → ℕ → Bytes
chunk file i = take block_size (rest_at i file)

rest_at-suc : (i : ℕ) (file : Bytes) → rest_at (suc i) file ≡ drop block_size (rest_at i file)
rest_at-suc zero file = refl
rest_at-suc (suc i) file = rest_at-suc i (drop block_size file)

-- `n` blocks of `rest`, one behind the other.
glued : ℕ → Bytes → Bytes
glued zero rest = []
glued (suc n) rest = take block_size rest ++ glued n (drop block_size rest)

glued_whole : (n : ℕ) (rest : Bytes) → length rest ≤ n * block_size → glued n rest ≡ rest
unfolding glued
glued_whole zero [] h = refl
glued_whole zero (b ∷ rest) h = absurd (omega arith)
glued_whole (suc n) rest h =
    ap (λ t. take block_size rest ++ t)
      (glued_whole n (drop block_size rest) (grind (arith, length-drop block_size rest)))
    ∙ take-append-drop block_size rest

write_blocks-glued :
    (file : Bytes) (i n : ℕ)
    → write_blocks (tabulate i n (λ j. some (chunk file j))) ≡ (glued n (rest_at i file), true)
unfolding write_blocks glued
write_blocks-glued file i zero = refl
write_blocks-glued file i (suc n) =
    let ih : write_blocks (tabulate (suc i) n (λ j. some (chunk file j)))
        ≡ (glued n (drop block_size (rest_at i file)), true) =
      write_blocks-glued file (suc i) n ∙ ap (λ r. (glued n r, true)) (rest_at-suc i file) in
    rw ih

count_enough : (file : Bytes) → length file ≤ block_count file * block_size
unfolding block_count block_size
count_enough file = omega arith

-- All blocks of a file, written in order, are the file.
pub write_blocks-chunks :
    (file : Bytes)
    → write_blocks (tabulate 0 (block_count file) (λ j. some (chunk file j))) ≡ (file, true)
write_blocks-chunks file =
    write_blocks-glued file 0 (block_count file)
    ∙ ap (λ r. (r, true)) (glued_whole (block_count file) file (count_enough file))

AreBytes-take : (n : ℕ) (s : Bytes) → AreBytes s → AreBytes (take n s)
AreBytes-take zero s h = tt
AreBytes-take (suc n) [] h = tt
AreBytes-take (suc n) (b ∷ s) (hb, hs) = (hb, AreBytes-take n s hs)

AreBytes-drop : (n : ℕ) (s : Bytes) → AreBytes s → AreBytes (drop n s)
AreBytes-drop zero s h = h
AreBytes-drop (suc n) [] h = tt
AreBytes-drop (suc n) (b ∷ s) (hb, hs) = AreBytes-drop n s hs

rest_at-AreBytes : (i : ℕ) (file : Bytes) → AreBytes file → AreBytes (rest_at i file)
rest_at-AreBytes zero file h = h
rest_at-AreBytes (suc i) file h =
    rest_at-AreBytes i (drop block_size file) (AreBytes-drop block_size file h)

pub chunk-AreBytes : (file : Bytes) (i : ℕ) → AreBytes file → AreBytes (chunk file i)
chunk-AreBytes file i h = AreBytes-take block_size (rest_at i file) (rest_at-AreBytes i file h)

-- What downloadFile settles for this file.
abbrev pub header_of : (Bytes → Text) → Text → Text → Bytes → Header
header_of sha256 filename id file = record {
  filename = filename;
  transfer_id = id;
  count = block_count file;
  checksum = sha256 file;
}

send_from-get :
    (h : Header) (file : Bytes) (n i k : ℕ)
    → k < n
    → get_elem? (send_from h n i (rest_at i file)) k ≡ some (payload h (i + k) (chunk file (i + k)))
unfolding send_from
send_from-get h file zero i k lt = absurd (omega arith)
send_from-get h file (suc n) i zero lt = let e : i + 0 ≡ i = omega arith in rw e refl
send_from-get h file (suc n) i (suc k) lt =
    let next = rest_at-suc i file in
    let step : suc i + k ≡ i + suc k = omega arith in
    let here : suc i ≡ i + 1 = omega arith in
    let ih = send_from-get h file n (suc i) k (omega arith) in rw (next, step, here) at ih

-- The k-th payload that the door sends carries the k-th block.
pub download_file-get :
    (sha256 : Bytes → Text) (filename id : Text) (file : Bytes) (k : ℕ)
    → k < block_count file
    → get_elem? (download_file sha256 filename id file) k
      ≡ some (payload (header_of sha256 filename id file) k (chunk file k))
unfolding download_file
download_file-get sha256 filename id file k lt =
    let e : 0 + k ≡ k = omega arith in
    rw e at (send_from-get (header_of sha256 filename id file) file (block_count file) 0 k lt)
