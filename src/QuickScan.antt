-- ===== src/QuickScan.antt =====
-- Source/QuickScan.c: the scan of all layers with two tests each, and its diagnosis.
-- `call` and `status_text` are the test functions and the text of a status, as for the runner;
-- `clock` gives the two readings of the clock around a test. The drawing on the screen is left out.
pub mod Diagnoses
pub mod Scan
use Prim.Native.String.{String}
use ddtsoft_net_test.Base.{
  ℕ, zero, suc, ◌+◌, ◌-◌, ◌/◌, Bool, true, false, not, ◌&&◌, ◌||◌, Option, none, some, List, [],
  ◌∷◌, ◌++◌, take, ltb, leb, ◌==◌, if◌then◌else◌, length,
}
use ddtsoft_net_test.Efi.{EfiStatus, success, invalid_parameter}
use ddtsoft_net_test.Registry.{Registry, reg_init_all_tests}
use ddtsoft_net_test.Registry.Tests.{
  OsiLayer, physical, data_link, network, transport, application, TestFunction, TestDefinition,
}
use ddtsoft_net_test.Runner.{
  Text, codes, NicInfo, TestConfig, TestResult, result_pass, result_fail, result_warn, result_error,
  run_test,
}

-- QUICK_LAYER_STATUS
pub data QuickLayerStatus : Type 0 where
  not_tested pass warn fail : QuickLayerStatus

pub is_fail : QuickLayerStatus → Bool
is_fail fail = true
is_fail _ = false

pub is_pass : QuickLayerStatus → Bool
is_pass pass = true
is_pass _ = false

pub is_warn : QuickLayerStatus → Bool
is_warn warn = true
is_warn _ = false

-- QUICK_LAYER_RESULT
pub record QuickLayerResult : Type 0 where
  pub layer : OsiLayer
  pub status : QuickLayerStatus
  pub tests_run : ℕ
  pub tests_passed : ℕ
  pub tests_failed : ℕ
  pub tests_warned : ℕ
  pub tests_skipped : ℕ
  pub best_summary : Text
  pub worst_summary : Text
  pub worst_suggestion : Text

-- `ZeroMem (&ScanResult, ...)`, and the layer set.
abbrev pub new_layer : OsiLayer → QuickLayerResult
new_layer l = record {
  layer = l;
  status = not_tested;
  tests_run = 0;
  tests_passed = 0;
  tests_failed = 0;
  tests_warned = 0;
  tests_skipped = 0;
  best_summary = [];
  worst_summary = [];
  worst_suggestion = [];
}

-- ScanResult.Layers
pub record Layers : Type 0 where
  pub l1 : QuickLayerResult
  pub l2 : QuickLayerResult
  pub l3 : QuickLayerResult
  pub l4 : QuickLayerResult
  pub l7 : QuickLayerResult

-- The names in mQuickL1Tests to mQuickL7Tests.
abbrev pub quick_l1_tests : List Text
quick_l1_tests = codes "NIC Status" ∷ codes "Link Detect" ∷ []

abbrev pub quick_l2_tests : List Text
quick_l2_tests = codes "MAC Address Valid" ∷ codes "ARP Request/Reply" ∷ []

abbrev pub quick_l3_tests : List Text
quick_l3_tests = codes "IP Config Check" ∷ codes "ICMP Echo (Ping)" ∷ []

abbrev pub quick_l4_tests : List Text
quick_l4_tests = codes "TCP Connect" ∷ codes "UDP Send/Receive" ∷ []

abbrev pub quick_l7_tests : List Text
quick_l7_tests = codes "DNS Resolve" ∷ codes "DHCP Lease Verify" ∷ []

-- `StrCmp (a, b) == 0`
abbrev pub str_eq : Text → Text → Bool
str_eq [] [] = true
str_eq [] (c ∷ cs) = false
str_eq (c ∷ cs) [] = false
str_eq (c ∷ cs) (d ∷ ds) = c == d && str_eq cs ds

-- QuickFindTest: the loop over the registry's tests.
pub quick_find_test : Registry → Text → Option TestDefinition
quick_find_test [] name = none
quick_find_test (t ∷ r) name = if str_eq (codes t.name) name then some t else quick_find_test r name

-- QuickDetermineLayerStatus
pub quick_determine_layer_status : QuickLayerResult → QuickLayerStatus
quick_determine_layer_status r =
    if r.tests_run == 0
    then not_tested
    else if ltb 0 r.tests_failed
    then fail
    else if ltb 0 r.tests_warned
    then warn
    else if ltb 0 r.tests_passed
    then pass
    else not_tested

pub set_status : QuickLayerResult → QuickLayerResult
set_status r = record r { status = quick_determine_layer_status r }

-- The counters of a layer after a result, as the silent scan keeps them.
pub count_result : TestResult → QuickLayerResult → QuickLayerResult
count_result t r =
    if t.status_code == result_pass
    then record r { tests_run = r.tests_run + 1; tests_passed = r.tests_passed + 1 }
    else if t.status_code == result_fail || t.status_code == result_error
    then record r { tests_run = r.tests_run + 1; tests_failed = r.tests_failed + 1 }
    else if t.status_code == result_warn
    then record r { tests_run = r.tests_run + 1; tests_warned = r.tests_warned + 1 }
    else record r { tests_run = r.tests_run + 1; tests_skipped = r.tests_skipped + 1 }

-- The texts of a layer after a result: UtilSafeStrCpy to 128 characters, where none is there yet.
pub keep_best : TestResult → QuickLayerResult → QuickLayerResult
keep_best t r =
    if length r.best_summary == 0 then record r { best_summary = take 127 t.summary } else r

pub keep_worst : TestResult → QuickLayerResult → QuickLayerResult
keep_worst t r =
    if length r.worst_summary == 0
    then record r { worst_summary = take 127 t.summary; worst_suggestion = take 127 t.suggestion }
    else r

-- The switch of QuickRunLayerTests.
pub add_result : TestResult → QuickLayerResult → QuickLayerResult
add_result t r =
    let counted = count_result t r in
    if t.status_code == result_pass
    then keep_best t counted
    else if t.status_code == result_fail
        || (t.status_code == result_error || t.status_code == result_warn)
    then keep_worst t counted
    else counted

-- The diagnoses, and their texts.
pub data Diagnosis : Type 0 where
  no_link no_frames bad_ip_config no_route no_transport no_services healthy : Diagnosis
  warnings : ℕ → Diagnosis
  some_skipped : Diagnosis

-- QuickApplyDiagnosis: the decision tree.
pub quick_apply_diagnosis : Layers → Diagnosis
quick_apply_diagnosis s =
    let warned = λ (r : QuickLayerResult). if is_warn r.status then 1 else 0 in
    let warn_count = warned s.l1 + warned s.l2 + warned s.l3 + warned s.l4 + warned s.l7 in
    if is_fail s.l1.status
    then no_link
    else if not (is_fail s.l1.status) && is_fail s.l2.status
    then no_frames
    else if not (is_fail s.l2.status) && is_fail s.l3.status
    then (if s.l3.tests_passed == 0 then bad_ip_config else no_route)
    else if not (is_fail s.l3.status) && is_fail s.l4.status
    then no_transport
    else if not (is_fail s.l4.status) && is_fail s.l7.status
    then no_services
    else if is_pass s.l1.status
        && (is_pass s.l2.status
            && (is_pass s.l3.status && (is_pass s.l4.status && is_pass s.l7.status)))
    then healthy
    else if ltb 0 warn_count
    then warnings warn_count
    else some_skipped

-- The text of Diagnosis; `decimal` is what `%d` prints.
pub diagnosis_text : (ℕ → Text) → Diagnosis → Text
diagnosis_text decimal no_link = codes "Fiziksel baglanti yok. Kablo ve NIC kontrol edin."
diagnosis_text decimal no_frames = codes "Link var ama frame iletisimi yok. Switch/VLAN kontrol."
diagnosis_text decimal bad_ip_config = codes "Frame OK ama IP yapilandirmasi hatali."
diagnosis_text decimal no_route = codes "Lokal ag OK ama dis aga cikamiyor. Gateway/routing."
diagnosis_text decimal no_transport = codes "IP OK ama TCP/UDP baglanti kurulamıyor. Firewall."
diagnosis_text decimal no_services = codes "Transport OK ama DNS/DHCP/HTTP calismiyor."
diagnosis_text decimal healthy = codes "Tum katmanlar saglikli."
diagnosis_text decimal (warnings n) =
    codes "Ag calisiyor ama " ++ (decimal n ++ codes " katmanda uyarilar var.")
diagnosis_text decimal some_skipped = codes "Tarama tamamlandi, bazi testler atildi."

-- The text of DiagnosisDetail.
pub detail_text : Diagnosis → Text
detail_text no_link =
    codes "Layer 1 (Physical) testleri basarisiz. NIC durumu ve "
    ++ codes "kablo baglantisini kontrol edin. NIC surucusunun yuklendigi dogrulayin."
detail_text no_frames =
    codes "Layer 1 OK ama Layer 2 (Data Link) basarisiz. MAC adresi, "
    ++ codes "ARP cevaplari veya switch port/VLAN yapilandirmasini kontrol edin."
detail_text bad_ip_config =
    codes "Layer 2 OK ama IP konfigurasyonu basarisiz. IPv4 adresi, "
    ++ codes "subnet mask ve gateway ayarlarini kontrol edin."
detail_text no_route =
    codes "IP konfigurasyonu mevcut ama uzak host'a ulasim yok. "
    ++ codes "Gateway ayarini ve routing tablosunu kontrol edin."
detail_text no_transport =
    codes "Layer 3 (Network) OK ama Layer 4 (Transport) basarisiz. "
    ++ (codes "Hedef host uzerinde firewall kurallari veya port "
        ++ codes "yapilandirmasini kontrol edin.")
detail_text no_services =
    codes "Layer 4 OK ama Layer 7 (Application) servisleri basarisiz. "
    ++ codes "DNS sunucusu, DHCP servisi veya HTTP sunucusunu kontrol edin."
detail_text healthy =
    codes "Tum OSI katmanlarindaki testler basarili. "
    ++ codes "Ag baglantisi tam fonksiyonel gorunuyor."
detail_text (warnings n) =
    codes "Kritik hata yok ama bazi testler uyari verdi. "
    ++ codes "Detayli test ile sorunlar arastirilabilir."
detail_text some_skipped =
    codes "Bazi testler gerekli protokol destegi olmadigindan atlandi. "
    ++ codes "Mevcut NIC yapilandirmasini kontrol edin."

-- UtilSafeStrCpy of a text into a buffer of `max` characters that holds `dest`.
pub copy_text : Text → Text → ℕ → Text
copy_text dest src max = if max == 0 then dest else take (max - 1) src
