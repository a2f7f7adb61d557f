-- ===== src/Gce/Stamp.antt =====
-- gce/attach.go: nowStamp, from the civil time that `time.Now().UTC()` stands for.
use docker_plugin_gce_pd.Prelude.{ℕ, ◌+◌, ◌/◌, ◌%◌, [], ◌∷◌, ◌++◌, ltb, if◌then◌else◌}
use docker_plugin_gce_pd.Prelude.Bytes.{Bytes}
use docker_plugin_gce_pd.Gce.Retry.{Civil, itoa}

abbrev pub digit : ℕ → ℕ
digit n = b'0' + n % 10

-- A number below 100, with two digits.
abbrev pub two_digits : ℕ → Bytes
two_digits n = digit (n / 10) ∷ digit n ∷ []

-- A year, with four digits or more.
unfoldable pub year_digits : ℕ → Bytes
unfolding itoa
year_digits n = if ltb n 10000 then two_digits (n / 100) ++ two_digits n else itoa n

-- nowStamp: the layout "20060102t150405".
unfoldable pub now_stamp : Civil → Bytes
unfolding year_digits
now_stamp t =
    year_digits t.year
    ++ (two_digits t.month
        ++ (two_digits t.day
            ++ (b't' ∷ (two_digits t.hour ++ (two_digits t.minute ++ two_digits t.second)))))
