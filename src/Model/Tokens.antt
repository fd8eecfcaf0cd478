-- ===== src/Model/Tokens.antt =====
-- packages/core/src/tokens.ts and web/lib/koul.ts: the tokens that rules trade.
use koul.Base.{ℕ, Bool, true, false, Text, codes}

pub data Symbol : Type 0 where
  xlm eth sol xrp wbtc btc usdt eurc : Symbol

pub record SwapToken : Type 0 where
  pub symbol : Symbol
  pub id : Text
  pub decimals : ℕ
  pub buys : Bool

-- `tokenBySymbol`
abbrev pub token_by_symbol : Symbol → SwapToken
token_by_symbol xlm = record {
  symbol = xlm;
  id = codes "CDLZFC3SYJYDZT7K67VZ75HPJVIEUVNIXF47ZG2FB2RMQQVU2HHGCYSC";
  decimals = 7;
  buys = true;
}
token_by_symbol eth = record {
  symbol = eth;
  id = codes "CAEXCVZUCB6FGYKU6YAEUJMVCLS74SPSQ2TTEOLJ27A3C6C627OQON47";
  decimals = 7;
  buys = true;
}
token_by_symbol sol = record {
  symbol = sol;
  id = codes "CBVJ6GYJJ55ALTHN32OJEFGUZWWTMDFGIBCM42SPYQ4GWLKX2XARAP2N";
  decimals = 7;
  buys = true;
}
token_by_symbol xrp = record {
  symbol = xrp;
  id = codes "CBSUHSWWZS5MEAGET6ES7UWI5A4QEVABXP6XJXB4XIUMRKMBIN7MJZ5D";
  decimals = 7;
  buys = true;
}
token_by_symbol wbtc = record {
  symbol = wbtc;
  id = codes "CBWPLT4YJFXFNDCZFUMCZZQ7UBM2FDIAXQNCM24NZODJDSJNUNMQ63PF";
  decimals = 8;
  buys = true;
}
token_by_symbol btc = record {
  symbol = btc;
  id = codes "CAOWDS3FQ4RKAY3LP7EBRAN7QO2ZFPNXH2ITT47FSTEXPDZRNQHEQFS2";
  decimals = 7;
  buys = false;
}
token_by_symbol usdt = record {
  symbol = usdt;
  id = codes "CDWFJXIZZFJ2CVGSAPZ5GWVEYCGDYE65XD2R7S4PWEDP2NFDWKNL4SWD";
  decimals = 7;
  buys = false;
}
token_by_symbol eurc = record {
  symbol = eurc;
  id = codes "CCIMRLN4JLJTGU62FG7IQUP4X5IIAFPBTJQ5AHBM7QQJDVXBJGN632PZ";
  decimals = 7;
  buys = false;
}

abbrev pub usdc : Text
usdc = codes "CBIELTK6YBZJU5UP2WWQEUCYKLPU6AUNZ2BQ4WWFEIE3USCIHMXQDAMA"
