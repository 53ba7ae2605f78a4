-- ===== src/Addon/Segment.antt =====
-- How the preedit is split into syllables (`segmentPinyin` and `pinyinPreedit` of
-- fcitx5-wetype/src/wetype.cpp). The set of syllables is the words of a literal.
use wetype_ime_linux.Base.{
  ℕ, zero, suc, List, [], ◌∷◌, ◌++◌, none, some, Bool, false, not, ◌&&◌, ◌||◌, ◌==◌, if◌then◌else◌,
  String, codes, length, take, drop, min, str_eqb,
}
use wetype_ime_linux.Addon.Punctuation.{back, is_nil}

-- The literal `data`, line by line.
unfoldable pub data_lines : List String
data_lines =
    "a ai an ang ao e ei en eng er o ou "
    ∷ "ba bai ban bang bao bei ben beng bi bian biao bie bin bing bo bu "
    ∷ "pa pai pan pang pao pei pen peng pi pian piao pie pin ping po pou pu "
    ∷ "ma mai man mang mao me mei men meng mi mian miao mie min ming miu mo " ∷ "mou mu "
    ∷ "fa fan fang fei fen feng fo fou fu "
    ∷ "da dai dan dang dao de dei den deng di dia dian diao die ding diu dong "
    ∷ "dou du duan dui dun duo "
    ∷ "ta tai tan tang tao te teng ti tian tiao tie ting tong tou tu tuan tui " ∷ "tun tuo "
    ∷ "na nai nan nang nao ne nei nen neng ng ni nian niang niao nie nin ning "
    ∷ "niu nong nou nu nuan nue nuo nv nve "
    ∷ "la lai lan lang lao le lei leng li lia lian liang liao lie lin ling "
    ∷ "liu long lou lu luan lue lun luo lv "
    ∷ "ga gai gan gang gao ge gei gen geng gong gou gu gua guai guan guang " ∷ "gui gun guo "
    ∷ "ka kai kan kang kao ke kei ken keng kong kou ku kua kuai kuan kuang " ∷ "kui kun kuo "
    ∷ "ha hai han hang hao he hei hen heng hong hou hu hua huai huan huang " ∷ "hui hun huo "
    ∷ "za zai zan zang zao ze zei zen zeng zha zhai zhan zhang zhao zhe zhei "
    ∷ "zhen zheng zhi zhong zhou zhu zhua zhuai zhuan zhuang zhui zhun zhuo "
    ∷ "zi zong zou zu zuan zui zun zuo "
    ∷ "ca cai can cang cao ce cen ceng cha chai chan chang chao che chen "
    ∷ "cheng chi chong chou chu chua chuai chuan chuang chui chun chuo ci "
    ∷ "cong cou cu cuan cui cun cuo "
    ∷ "sa sai san sang sao se sen seng sha shai shan shang shao she shei shen "
    ∷ "sheng shi shou shu shua shuai shuan shuang shui shun shuo si song sou "
    ∷ "su suan sui sun suo " ∷ "ra ran rang rao re ren reng ri rong rou ru ruan rui run ruo "
    ∷ "ji jia jian jiang jiao jie jin jing jiong jiu ju juan jue jun "
    ∷ "qi qia qian qiang qiao qie qin qing qiong qiu qu quan que qun "
    ∷ "xi xia xian xiang xiao xie xin xing xiong xiu xu xuan xue xun "
    ∷ "ya yan yang yao ye yi yin ying yo yong you yu yuan yue yun "
    ∷ "wa wai wan wang wei wen weng wo wu " ∷ "bo bei ben beng bian bie bin bing "
    ∷ "ge gei gen geng gong gou gua guai guan guang gui gun guo " ∷ "jiong juan jue jun " ∷ []

-- `input >> item`: the words between spaces.
unfoldable pub words : List ℕ → List ℕ → List (List ℕ)
words w [] = if is_nil w then [] else w ∷ []
words w (c ∷ cs) =
    let next = words [] cs in
    let longer = words (w ++ c ∷ []) cs in
    if c == b' ' then (if is_nil w then next else w ∷ next) else longer

unfoldable pub words_of : List String → List (List ℕ)
words_of [] = []
words_of (l ∷ ls) = words [] (codes l) ++ words_of ls

unfoldable pub syllables : List (List ℕ)
syllables = words_of data_lines

-- `syllables.count(s)`.
unfoldable pub is_in : List ℕ → List (List ℕ) → Bool
is_in s [] = false
is_in s (w ∷ ws) = str_eqb s w || is_in s ws

-- `raw.find('\'', i) < end`: an apostrophe among the letters taken.
unfoldable pub has_quote : List ℕ → Bool
has_quote [] = false
has_quote (c ∷ cs) = (c == b'\'') || has_quote cs

-- The longest of the first `n` letters that is a syllable; 0 when there is none.
unfoldable pub longest : List (List ℕ) → ℕ → List ℕ → ℕ
longest dict zero raw = 0
longest dict (suc n) raw =
    let shorter = longest dict n raw in
    let word = take (suc n) raw in
    if not (has_quote word) && is_in word dict then suc n else shorter

-- `out += ' '` unless it is empty or ends in an apostrophe or a space.
unfoldable pub spaced : List ℕ → List ℕ
spaced out = elim (back out) [
  | none ↦ out
  | some c ↦ if (c == b'\'') || (c == b' ') then out else out ++ b' ' ∷ []
]

-- The loop: the text so far, then what is left of `raw`; each round takes a letter at least.
unfoldable pub segment : List (List ℕ) → ℕ → List ℕ → List ℕ → List ℕ
segment dict zero out raw = out
segment dict (suc fuel) out [] = out
segment dict (suc fuel) out (c ∷ cs) =
    let m = longest dict (min (length (c ∷ cs)) 6) (c ∷ cs) in
    let quoted = segment dict fuel (out ++ c ∷ []) cs in
    let matched = segment dict fuel (spaced out ++ take m (c ∷ cs)) (drop m (c ∷ cs)) in
    if c == b'\'' then quoted else if m == 0 then spaced out ++ c ∷ cs else matched

-- `segmentPinyin`.
unfoldable pub segment_pinyin : List ℕ → List ℕ
segment_pinyin raw = segment syllables (length raw) [] raw

-- The text of `pinyinPreedit`.
unfoldable pub pinyin_preedit : List ℕ → List ℕ
pinyin_preedit buffer = if is_nil buffer then [] else segment_pinyin buffer
