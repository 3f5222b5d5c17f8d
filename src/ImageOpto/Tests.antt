-- ===== src/ImageOpto/Tests.antt =====
-- fsthttp/imageopto/imageopto.go: tests, and the theorems at concrete inputs. The numbers of the
-- tests are thousandths.
use compute_sdk_go.Common.{ℕ, ◌*◌, ◌/◌, ◌≡◌, refl, false, [], some, none, Bytes, codes, ltb, ◌==◌}
use compute_sdk_go.Common.Int.{pos, negsuc, decimal}
use compute_sdk_go.ImageOpto.Floats.{Floats, bad_pixels}
use compute_sdk_go.ImageOpto.Area.{width_height, Canvas, validate_area, validate_crop}
use compute_sdk_go.ImageOpto.Modes.{luminance_threshold, blur_pixels}
use compute_sdk_go.ImageOpto.Options.{Options, validate_params}

abbrev thousandths : Floats ℕ
thousandths = record {
  is_zero = λ f. f == 0;
  below_tenths = λ f n. ltb f (100 * n);
  above = λ f n. ltb (1000 * n) f;
  nearest3 = λ f. f;
  format32 = λ f. decimal (f / 1000);
  format64 = λ f. decimal (f / 1000);
}

abbrev options : Options ℕ
options = record {
  region = codes "us_east";
  auto = [];
  bg_color = some (record { r = 1; g = 20; b = 255; alpha = 1000 });
  blur = blur_pixels 5000;
  brightness = negsuc 9;
  bw = luminance_threshold 30;
  canvas = none;
  contrast = pos 0;
  crop = some (record {
    size = width_height (codes "100") (codes "50p");
    position = some (record { x = codes "x10"; y = codes "y20p" });
    crop_mode = codes "smart";
  });
  dpr = 2000;
  enable = [];
  fit = codes "cover";
  format = [];
  frame = 1;
  height = codes "12.5p";
  level = [];
  metadata = [];
  optimize = [];
  orient = pos 0;
  pad = none;
  precrop = none;
  profile = [];
  quality = 80;
  resize_filter = [];
  saturation = pos 0;
  sharpen = none;
  trim_sides = none;
  trim_color = none;
  width = codes "200";
  preserve_query_string_on_origin_request = false;
}

abbrev text : Bytes
text =
    codes
      "region=us_east&bg-color=1,20,255,1&blur=5&brightness=-10&bw=threshold,30&crop=100,50p,x10,y20p,smart&dpr=2&fit=cover&frame=1&height=12.5p&width=200"

valid_options : validate_params thousandths options ≡ none
unfolding validate_params validate_crop
valid_options = refl

abbrev bad_canvas : Canvas
bad_canvas = record { size = width_height (codes "10&level=3") []; position = none }

bad_size : validate_area bad_canvas.size ≡ some (bad_pixels (codes "10&level=3"))
unfolding validate_area
bad_size = refl
