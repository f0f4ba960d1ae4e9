-- ===== src/Tests/Ram.antt =====
-- A disk file in memory: an `Os` whose calls never fail, and the proof that it is one.
use filesys.Prelude.{
  ℕ, ◌+◌, ◌-◌, ◌≤◌, ◌<◌, ◌≡◌, ◌⊎◌, refl, ap, true, some, ◌&&◌, arith, ltb, leb, if◌then◌else◌,
}
use filesys.Bytes.{Buffer}
use filesys.Os.{Os, IsPosix, count}

abbrev write_bytes : Buffer → ℕ → ℕ → Buffer → Buffer
write_bytes b n o s a = if leb o a && ltb a (o + n) then b (a - o) else s a

instance abbrev pub ram : Os
ram = record {
  State = Buffer;
  pread = λ n o s. (count n, (λ i. s (o + i)), s);
  pwrite = λ b n o s. (count n, write_bytes b n o s);
  fstat = λ s. (some 5120, s);
  time = λ s. (0, s);
  malloc = λ s. (true, s);
  getuid = 0;
  getgid = 0;
}

write_bytes_inside :
    (b : Buffer) (n o : ℕ) (s : Buffer) (i : ℕ) → i < n → write_bytes b n o s (o + i) ≡ b i
write_bytes_inside b n o s i h = let back : o + i - o ≡ i = omega arith in ground (arith, ap b back)

write_bytes_outside :
    (b : Buffer) (n o : ℕ) (s : Buffer) (a : ℕ)
    → (a < o) ⊎ (o + n ≤ a)
    → write_bytes b n o s a ≡ s a
write_bytes_outside b n o s a h = ground arith

unfoldable pub ram-IsPosix : IsPosix ram
unfolding write_bytes_inside write_bytes_outside
ram-IsPosix = record {
  byte = λ s a. s a;
  pread_full = λ n o s i e h. refl;
  pread_keeps = λ n o s a. refl;
  pwrite_full = λ b n o s i e h. write_bytes_inside b n o s i h;
  pwrite_outside = λ b n o s a h. write_bytes_outside b n o s a h;
  time_keeps = λ s a. refl;
  malloc_keeps = λ s a. refl;
  fstat_keeps = λ s a. refl;
}
